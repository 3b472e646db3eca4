-- ===== src/Index/Run.antt =====
-- The loop of the indexing task, `Index::index` of controller/k8s/index/src/lib.rs, with the watches
-- of controller/k8s/api/src/watch.rs.
pub mod Induction
pub mod Granted
pub mod Synced
pub mod Published
pub mod Linked
pub mod Served
pub mod Sends
pub mod Streams
pub mod Followed
pub mod Policed
pub mod Polled
pub mod Bounded
pub mod Addressed
pub mod Heard
pub mod Awaited
pub mod Received
pub mod Ready
use polixy.Prelude.{
  String, Bool, true, false, ◌&&◌, Option, none, some, List, [], ◌∷◌, if◌then◌else◌,
}
use polixy.Result.{Result, ok, err, panic}
use polixy.Core.{Ipnet}
use polixy.K8s
use polixy.Index.{Index, Exec}
use polixy.Index.Nodes.{apply_node, delete_node, reset_nodes}
use polixy.Index.Pods.{apply_pod, delete_pod, reset_pods}
use polixy.Index.Servers.{apply_server, delete_server, reset_servers}
use polixy.Index.Authzs.{apply_authz, delete_authz, reset_authzs}

-- `kube_runtime::watcher::Event`
pub data Event {ℓ} (A : Type ℓ) : Type ℓ where
  applied deleted : A → Event A
  restarted : List A → Event A

-- what a watch can report
pub data Update : Type 0 where
  node : Event K8s.Node → Update
  pod : Event K8s.Pod → Update
  server : Event K8s.Server → Update
  authz : Event K8s.ServerAuthorization → Update

module _ {ip : Ipnet} where
  -- the arms of `select!`
  unfoldable pub handle : Update → Exec ip
  handle (node (applied n)) = apply_node n
  handle (node (deleted n)) = delete_node n.metadata.name
  handle (node (restarted ns)) = reset_nodes ns
  handle (pod (applied p)) = apply_pod p
  handle (pod (deleted p)) = delete_pod p
  handle (pod (restarted ps)) = reset_pods ps
  handle (server (applied s)) = apply_server s
  handle (server (deleted s)) = delete_server s
  handle (server (restarted ss)) = reset_servers ss
  handle (authz (applied a)) = apply_authz a
  handle (authz (deleted a)) = delete_authz a
  handle (authz (restarted az)) = reset_authzs az

  -- the states that the index takes: an error ends only its own update
  unfoldable pub run : List Update → Index ip → Index ip
  run [] idx = idx
  run (u ∷ us) idx = run us (handle u idx).1

-- The `ready` flags of the four watches.
pub record Flags : Type 0 where
  pub nodes : Bool
  pub pods : Bool
  pub servers : Bool
  pub authzs : Bool

pub data Watched : Type 0 where
  nodes pods servers authzs : Watched

-- the watch that reports the update
abbrev pub watch_of : Update → Watched
watch_of (node e) = nodes
watch_of (pod e) = pods
watch_of (server e) = servers
watch_of (authz e) = authzs

abbrev pub set_flag : Watched → Bool → Flags → Flags
set_flag nodes b f = record f { nodes = b }
set_flag pods b f = record f { pods = b }
set_flag servers b f = record f { servers = b }
set_flag authzs b f = record f { authzs = b }

abbrev pub all_ready : Flags → Bool
all_ready f = f.nodes && f.pods && f.servers && f.authzs

-- the variables of the loop, and the values sent on `ready_tx`, the last one first
pub record Loop (ip : Ipnet) : Type 0 where
  pub idx : Index ip
  pub flags : Flags
  pub ready : Bool
  pub sent : List Bool

-- What a poll of a watch's stream gives, in `Watch::recv`: an error keeps `recv` waiting.
pub data Poll : Type 0 where
  failed : Watched → Poll
  received : Update → Poll

abbrev pub differ : Bool → Bool → Bool
differ true b = if b then false else true
differ false b = b

module _ {ip : Ipnet} where
  -- after an update has been handled
  notify : Loop ip → Loop ip
  notify l =
      let now = all_ready l.flags in
      if differ l.ready now then record l { ready = now; sent = now ∷ l.sent } else l

  unfoldable pub poll : Poll → Loop ip → Loop ip
  unfolding notify
  poll (failed w) l = record l { flags = set_flag w false l.flags }
  poll (received u) l =
      notify (record l { idx = (handle u l.idx).1; flags = set_flag (watch_of u) true l.flags })

  unfoldable pub polls : List Poll → Loop ip → Loop ip
  polls [] l = l
  polls (p ∷ ps) l = polls ps (poll p l)

  unfoldable pub start : Index ip → Loop ip
  start idx = record {
    idx = idx;
    flags = record { nodes = false; pods = false; servers = false; authzs = false };
    ready = false;
    sent = [];
  }
