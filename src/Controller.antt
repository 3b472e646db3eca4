-- ===== src/Controller.antt =====
-- controller/src/main.rs: what the controller is started with, the parts that it runs, and how it ends.
-- The indexing task is the loop of Index/Run, with the watch of the readiness; the API server looks
-- ports up in the map that the task writes. The addresses of the servers are not in the model.
pub mod Enforced
use polixy.Prelude.{ℕ, String, List, [], ◌∷◌}
use polixy.Core.{Ipnet, InboundServer}
use polixy.Proto
use polixy.Proto.{Wire, PortSpec}
use polixy.Reply.{Reply, ok, err}
use polixy.DefaultAllow.{DefaultAllow}
use polixy.Grpc.{Code}
use polixy.Index.{Index, new}
use polixy.Index.Run.{Loop, start}

pub record Args (ip : Ipnet) : Type 0 where
  pub identity_domain : String
  pub cluster_networks : List ip.IpNet
  pub default_allow : DefaultAllow

-- ten seconds, in nanoseconds
abbrev pub detect_timeout : ℕ
detect_timeout = 10000000000

-- `k8s::index`: the task, and with it the map of its reader
unfoldable pub index :
    {ip : Ipnet} → List ip.IpNet → String → DefaultAllow → (timeout : ℕ) → Loop ip
index cluster_networks identity_domain default_mode timeout =
    start (new cluster_networks identity_domain default_mode timeout)

-- the task of `main`
unfoldable pub index_task : {ip : Ipnet} → Args ip → Loop ip
unfolding index
index_task args = index args.cluster_networks args.identity_domain args.default_allow detect_timeout

-- what a spawned task gives when it is joined
pub data Join {ℓ} (A : Type ℓ) : Type ℓ where
  returned : A → Join A
  cancelled panicked : Join A

-- the branch of `select!` in `main` that is ready first
pub data Ended {ℓ} (E : Type ℓ) : Type ℓ where
  shutdown : Ended E
  grpc : Join (Reply E (Unit {0})) → Ended E
  indexer : Join E → Ended E
  admin : Join (Reply E (Unit {0})) → Ended E

-- the errors of `main`, by their contexts
pub data Fault {ℓ} (E : Type ℓ) : Type ℓ where
  grpc_failed indexer_failed admin_failed : E → Fault E
  grpc_panicked indexer_panicked admin_panicked : Fault E

module _ {ℓ} {E : Type ℓ} where
  -- `res.context(…)`, `Ok(())` or `Err(e).context(…)`
  joined : (E → Fault E) → Fault E → Join (Reply E (Unit {0})) → Reply (Fault E) (Unit {0})
  joined failed crashed (returned (ok _)) = ok tt
  joined failed crashed (returned (err e)) = err (failed e)
  joined failed crashed cancelled = ok tt
  joined failed crashed panicked = err crashed

  -- how `main` ends
  unfoldable pub exit : Ended E → Reply (Fault E) (Unit {0})
  unfolding joined
  exit shutdown = ok tt
  exit (grpc res) = joined grpc_failed grpc_panicked res
  exit (indexer (returned e)) = err (indexer_failed e)
  exit (indexer cancelled) = ok tt
  exit (indexer panicked) = err indexer_panicked
  exit (admin res) = joined admin_failed admin_panicked res

-- which branch `select!` in `grpc` takes: the server ends, or the drain is signalled and the server,
-- told to close, ends after that
pub data Served {ℓ} (E : Type ℓ) : Type ℓ where
  alone released : Reply E (Unit {0}) → Served E

unfoldable pub grpc_result {ℓ} : {E : Type ℓ} → Served E → Reply E (Unit {0})
grpc_result (alone res) = res
grpc_result (released res) = res
