-- ===== src/Index/Run/Streams/Tuned.antt =====
-- A stream and the index agree, from the state where a watch begins and after any turns.
use polixy.Prelude.{
  ℕ, String, ◌≡◌, ◌<◌, subst, inr, some, List, [], ◌∷◌, string_eq, nat_eq, inl, arith, Option-cases,
}
use polixy.Map.{get}
use polixy.Core.{Ipnet, InboundServer, detect}
use polixy.DefaultAllow.{DefaultAllow}
use polixy.Watch.{borrow}
use polixy.Lookup.{Rx, ByNs, ByPort, find, lookup, mk_server}
use polixy.Lookup.Stream
use polixy.Lookup.Stream.{World, Branch, Watching, into_stream, start, polls}
use polixy.Lookup.Stream.Polls.{IsCurrent, start-IsCurrent, Moves-IsCurrent, poll-IsCurrent}
use polixy.Pod.Linked.{has_tx_of_get}
use polixy.Pod.Linked.Pods.{LinkedPods, has_tx-lt, get-LinkedPods}
use polixy.Index.{Namespace, Index, new}
use polixy.Index.Run.{Update, handle, run}
use polixy.Index.Run.Induction.{handle-Keeps}
use polixy.Index.Run.Served.Ports.{lookup-Match}
use polixy.Index.Run.Served.{find_pod-some}
use polixy.Index.Run.Streams.{Turn, update, poll, world_of, turns}
use polixy.Index.Run.Synced.{run-Synced}
use polixy.Index.Run.Synced.Matching.{find_pod}
use polixy.Index.Run.Published.{run-InChannels}
use polixy.Index.Run.Linked.{run-InLinks}
use polixy.Index.Run.Linked.Channels.{at_there, IsMode}
use polixy.Index.Run.Sends.{Before, Ahead}
use polixy.Index.Run.Sends.Operations.{operations-Ahead}
use polixy.DefaultAllow.{deny}
use polixy.Prelude.{All}
use polixy.Node.{KubeletIps}
use polixy.Client.Decode.{Fits}
use polixy.Index.Run.Sends.Reached.{configs_of, self-Ahead, reached-Ahead, reached-IsTimely}
use polixy.Server.Moves.{IsTimely}
use polixy.Lookup.Stream.Yielded.{poll-All, polls-All, start-All}

lookup-some :
    (name pod_name : String) (p : ℕ) (lookups : ByNs) (rx : Rx)
    → lookup name pod_name p lookups ≡ some rx
    → (ports : ByPort) × (find name pod_name lookups ≡ some ports) × (get p ports ≡ some rx)
unfolding lookup
lookup-some name pod_name p lookups rx h = elim (Option-cases (find name pod_name lookups)) [
  | inl e ↦ ground (arith, rw (e, lookup) at h)
  | inr (ports, e) ↦ (ports, e, rw (e, lookup) at h)
]

-- the channel of a port that is found is open
lookup-lt :
    (ip : Ipnet) (nets : List ip.IpNet) (domain : String) (mode : DefaultAllow) (timeout : ℕ)
    (us : List Update) (name pod_name : String) (p : ℕ) (rx : Rx)
    → lookup name pod_name p (run us (new {ip = ip} nets domain mode timeout)).lookups ≡ some rx
    → rx.rx < (run us (new {ip = ip} nets domain mode timeout)).links.next
lookup-lt ip nets domain mode timeout us name pod_name p rx h =
    let reached = run us (new {ip = ip} nets domain mode timeout) in
    let (ports, found, there) = lookup-some name pod_name p reached.lookups rx h in
    let (pod, port, o, at, tx) =
      lookup-Match (find_pod name pod_name reached.namespaces.index)
        (find name pod_name reached.lookups) p ports rx found there
        (run-Synced ip nets domain mode timeout us name pod_name) in
    let (ns, in_it, got) = find_pod-some name pod_name pod reached.namespaces.index o in
    let here = at_there reached.namespaces.default_allow name ns reached.namespaces.index in_it in
    let all = (run-InLinks {ip = ip} nets domain mode timeout us).linked name in
    let (linked, d) =
      get-LinkedPods (IsMode reached.default_allows) ns.servers pod_name pod ns.pods reached.links
        got
        (subst
          (λ (x : Namespace ip).
            LinkedPods (IsMode reached.default_allows) x.servers x.pods reached.links)
          here all) in
    subst (λ i. i < reached.links.next) tx
      (has_tx-lt (IsMode reached.default_allows) ns.servers pod.default_allow_rx port.server_tx
        pod.ports.by_port reached.links linked (has_tx_of_get p port pod.ports.by_port at))

module _ {ip : Ipnet} where
  -- the stream and the index agree
  pub record InTune (config : DefaultAllow → InboundServer ip) (rx : Rx)
      (st : Index ip × Watching ip) : Type 0 where
    pub opened : (i : ℕ) → borrow i st.0.links < st.0.configs.next
    pub before : Before config st.0
    pub present : rx.rx < st.0.links.next
    pub current : IsCurrent rx (world_of st.0) st.1
    -- if the timeouts of the default modes fit, so do all
    pub timely :
        ((m : DefaultAllow) → IsTimely (config m)) → (i : ℕ) → IsTimely (borrow i st.0.configs)
    pub sent : ((m : DefaultAllow) → IsTimely (config m)) → All IsTimely st.1.yielded

  mk_server-IsTimely :
      (kubelet : KubeletIps) (s : InboundServer ip) → IsTimely s → IsTimely (mk_server kubelet s)
  unfolding mk_server
  mk_server-IsTimely kubelet s h = h

  turns-InTune :
      (config : DefaultAllow → InboundServer ip) (rx : Rx) (ts : List Turn)
      (st : Index ip × Watching ip)
      → InTune config rx st
      → InTune config rx (turns ts st)
  unfolding turns
  turns-InTune config rx [] st t = t
  turns-InTune config rx (update u ∷ ts) (idx, v) t =
      let a =
        handle-Keeps (Ahead config idx.links idx.configs)
          (operations-Ahead config idx.links idx.configs) u idx
          (self-Ahead config idx t.opened t.before) in
      turns-InTune config rx ts ((handle u idx).1, v)
        (record {
          opened = a.opened;
          before = a.before;
          present = omega (arith, t.present, a.links.grows);
          current =
              Moves-IsCurrent rx (world_of idx) (world_of (handle u idx).1) v t.present a.links
                a.configs t.current;
          timely = λ h. a.configs.sound (t.timely h);
          sent = t.sent;
        })
  turns-InTune config rx (poll b ∷ ts) (idx, v) t =
      turns-InTune config rx ts (idx, Stream.poll b (world_of idx) v)
        (record {
          opened = t.opened;
          before = t.before;
          present = t.present;
          current = poll-IsCurrent b rx (world_of idx) v t.opened t.current;
          timely = t.timely;
          sent = λ h.
              poll-All IsTimely (λ k s p. mk_server-IsTimely k s p) b (world_of idx) v (t.timely h)
                (t.sent h);
        })

  pub polls-IsCurrent :
      (rx : Rx) (w : World ip) (bs : List Branch) (v : Watching ip)
      → ((i : ℕ) → borrow i w.links < w.configs.next)
      → IsCurrent rx w v
      → IsCurrent rx w (polls bs w v)
  unfolding polls
  polls-IsCurrent rx w [] v open_all c = c
  polls-IsCurrent rx w (b ∷ bs) v open_all c =
      polls-IsCurrent rx w bs (Stream.poll b w v) open_all (poll-IsCurrent b rx w v open_all c)

-- a watched port, in the state where the watch begins and after any turns
pub watched-InTune :
    (ip : Ipnet) (nets : List ip.IpNet) (domain : String) (mode : DefaultAllow) (timeout : ℕ)
    (us : List Update) (name pod_name : String) (p : ℕ) (rx : Rx) (ts : List Turn)
    → lookup name pod_name p (run us (new {ip = ip} nets domain mode timeout)).lookups ≡ some rx
    → let idx = run us (new {ip = ip} nets domain mode timeout) in
      InTune
        (configs_of nets timeout)
        rx
        (turns ts (idx, start (into_stream rx idx.links) (world_of idx)))
watched-InTune ip nets domain mode timeout us name pod_name p rx ts h =
    let idx = run us (new {ip = ip} nets domain mode timeout) in
    let ahead = reached-Ahead ip nets domain mode timeout us in
    let open_all = ahead.opened in
    turns-InTune (configs_of nets timeout) rx ts _ (record {
      opened = open_all;
      before = record {
        channels = run-InChannels {ip = ip} nets domain mode timeout us;
        linked = run-InLinks {ip = ip} nets domain mode timeout us;
      };
      present = lookup-lt ip nets domain mode timeout us name pod_name p rx h;
      current = start-IsCurrent rx (world_of idx) open_all;
      timely = λ h. reached-IsTimely ip nets domain mode timeout us (h deny);
      sent = λ h.
          start-All IsTimely (λ k s p. mk_server-IsTimely k s p) rx (world_of idx)
            (reached-IsTimely ip nets domain mode timeout us (h deny));
    })

-- the timeouts of what is sent
pub polls-IsTimely :
    (ip : Ipnet) (nets : List ip.IpNet) (domain : String) (mode : DefaultAllow) (timeout : ℕ)
    (us : List Update) (name pod_name : String) (p : ℕ) (rx : Rx) (ts : List Turn)
    (bs : List Branch)
    → lookup name pod_name p (run us (new {ip = ip} nets domain mode timeout)).lookups ≡ some rx
    → Fits (detect timeout)
    → let idx = run us (new {ip = ip} nets domain mode timeout) in
      let st = turns ts (idx, start (into_stream rx idx.links) (world_of idx)) in
      All IsTimely (polls bs (world_of st.0) st.1).yielded
polls-IsTimely ip nets domain mode timeout us name pod_name p rx ts bs h fits =
    let idx = run us (new {ip = ip} nets domain mode timeout) in
    let st = turns ts (idx, start (into_stream rx idx.links) (world_of idx)) in
    let t = watched-InTune ip nets domain mode timeout us name pod_name p rx ts h in
    polls-All IsTimely (λ k s q. mk_server-IsTimely k s q) bs (world_of st.0) st.1
      (t.timely (λ m. fits)) (t.sent (λ m. fits))
