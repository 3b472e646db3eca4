-- ===== src/Controller/Enforced.antt =====
-- The whole system: a proxy that asks the controller for a port of its pod enforces the cluster's policy.
use polixy.Prelude.{
  ℕ, String, ◌≡◌, ◌≢◌, ◌<◌, ◌↔◌, sym, ap, subst, ◌∙◌, true, Option, none, some, List, is_some,
  arith, string_eq, nat_eq,
}
use mathlib.Core.Option.{some-injective}
use polixy.Map.{get}
use polixy.Core.{Ipnet, IsIpnet, InboundServer}
use polixy.Proto.{Wire, IsWire}
use polixy.Reply.{ok}
use polixy.Text.Laws.{NoChar}
use polixy.Lookup.{Rx, lookup}
use polixy.Server.{Server}
use polixy.Pod.{Pod, Port}
use polixy.Index.{Namespace, Index, new}
use polixy.Index.Run.{Update, Poll, polls, run, start}
use polixy.Index.Run.Polled.{updates, idx-polls}
use polixy.Index.Run.Bounded.{answered-lt}
use polixy.Index.Run.Policed.{IsAdmitted, run-admits}
use polixy.Index.Run.Sends.Reached.{run-Fits}
use polixy.Client.{Inbound}
use polixy.Client.Calls
use polixy.Client.Decode.{Fits, inbound_of}
use polixy.Client.HttpApi.{Spec, check}
use polixy.Client.Commands.{workload}
use polixy.Client.Commands.Answered.{api, answered, AllFit, get-answered}
use polixy.Controller.{Args, detect_timeout, index, index_task}

module _ {ip : Ipnet} (is : IsIpnet ip) (w : Wire ip) (wires : IsWire w) where
  -- what is shown of the state of the index
  abbrev Enforces :
      String → Namespace ip → String → Pod → ℕ → Port → String → Spec → Index ip → Type 0
  Enforces name ns pod_name pod p port srv_name spec idx =
      get name idx.namespaces.index ≡ some ns
      → get pod_name ns.pods ≡ some pod
      → get p pod.ports.by_port ≡ some port
      → port.server_name ≡ some srv_name
      → NoChar ":" name
      → name ≢ ""
      → pod_name ≢ ""
      → 0 < p
      → (srv : Server ip) × (rx : Rx) × (inbound : Inbound ip) × (get srv_name ns.servers
          ≡ some srv)
        × (lookup name pod_name p idx.lookups ≡ some rx)
        × (Calls.get_port w (api w idx.links idx.configs idx.lookups) (workload name pod_name) p
            ≡ ok inbound)
        × ((is_some (check inbound spec) ≡ true)
            ↔ IsAdmitted spec rx.kubelet ns.authzs srv_name srv.meta.labels)

  some-AllFit :
      (o : Option (InboundServer ip)) (s : InboundServer ip)
      → o ≡ some s
      → Fits s.protocol
      → AllFit w o
  some-AllFit none s e h = cc
  some-AllFit (some r) s e h =
      subst (λ (x : InboundServer ip). Fits x.protocol) (sym (some-injective r s e)) h

  run-Enforces :
      (args : Args ip) (us : List Update) (name : String) (ns : Namespace ip) (pod_name : String)
      (pod : Pod) (p : ℕ) (port : Port) (srv_name : String) (spec : Spec)
      → Enforces name ns pod_name pod p port srv_name spec (
          run us (new args.cluster_networks args.identity_domain args.default_allow detect_timeout))
  run-Enforces args us name ns pod_name pod p port srv_name spec h k l n free some_ns some_pod low =
      let nets = args.cluster_networks in
      let domain = args.identity_domain in
      let mode = args.default_allow in
      let idx = run us (new {ip = ip} nets domain mode detect_timeout) in
      let (srv, rx, s, there, held, found, admits) =
        run-admits is nets domain mode detect_timeout us name ns pod_name pod p port srv_name spec h
          k l n in
      let fits =
        run-Fits ip nets domain mode detect_timeout us name pod_name p s (omega arith) found in
      (
        srv,
        rx,
        inbound_of s,
        there,
        held,
        get-answered w wires idx.links idx.configs idx.lookups name pod_name p free some_ns some_pod
              low (answered-lt ip nets domain mode detect_timeout us name pod_name p s found)
              (some-AllFit _ s found fits)
            ∙ ap (answered w) found,
        admits,
      )

  -- A proxy of a pod whose namespace has no colon in its name, both of which are named, that asks the
  -- controller for a port other than 0 which has the name of a server, whatever the watches have
  -- given to the indexing task, is answered, and with the answer it admits a client exactly if the
  -- access of the kubelet admits it, which is unauthenticated access from the addresses that the lookups
  -- hold for the port, or if some authorization of the namespace, other than one with the name of that
  -- access, selects the server and admits the client.
  pub get-enforced :
      (args : Args ip) (ps : List Poll) (name : String) (ns : Namespace ip) (pod_name : String)
      (pod : Pod) (p : ℕ) (port : Port) (srv_name : String) (spec : Spec)
      → get name (polls ps (index_task args)).idx.namespaces.index ≡ some ns
      → get pod_name ns.pods ≡ some pod
      → get p pod.ports.by_port ≡ some port
      → port.server_name ≡ some srv_name
      → NoChar ":" name
      → name ≢ ""
      → pod_name ≢ ""
      → 0 < p
      → let idx = (polls ps (index_task args)).idx in
        (srv : Server ip) × (rx : Rx) × (inbound : Inbound ip) × (get srv_name ns.servers
          ≡ some srv)
        × (lookup name pod_name p idx.lookups ≡ some rx)
        × (Calls.get_port w (api w idx.links idx.configs idx.lookups) (workload name pod_name) p
            ≡ ok inbound)
        × ((is_some (check inbound spec) ≡ true)
            ↔ IsAdmitted spec rx.kubelet ns.authzs srv_name srv.meta.labels)
  unfolding index_task index start
  get-enforced args ps name ns pod_name pod p port srv_name spec h k l n free some_ns some_pod low =
      subst (Enforces name ns pod_name pod p port srv_name spec)
        (sym (idx-polls ps (index_task args)))
        (run-Enforces args (updates ps) name ns pod_name pod p port srv_name spec) h k l n free
        some_ns some_pod low
