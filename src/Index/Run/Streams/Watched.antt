-- ===== src/Index/Run/Streams/Watched.antt =====
-- A stream that is polled on both of its branches shows the configuration that is served.
use polixy.Prelude.{
  ℕ, String, ◌≡◌, sym, ap, ◌∙◌, true, false, some, List, ◌∷◌, string_eq, nat_eq, map, inl,
}
use polixy.Core.{Ipnet, InboundServer}
use polixy.DefaultAllow.{DefaultAllow}
use polixy.Watch.{borrow}
use polixy.Lookup.{Rx, lookup, rx_get, mk_server}
use polixy.Lookup.Stream.{Branch, into_stream, start, polls}
use polixy.Lookup.Stream.Polls.{has_changed-false}
use polixy.Lookup.Stream.Settled.{polls_inner, polls_outer, polls-Settled}
use polixy.Index.{new}
use polixy.Index.Run.{Update, run}
use polixy.Index.Run.Streams.{Turn, world_of, turns}
use polixy.Index.Run.Streams.Tuned.{polls-IsCurrent, watched-InTune}

-- A stream of a port that is found in a state that a new index reaches, after any updates of the
-- index and any polls of the stream, in any order, shows what is to be served by then: once each of
-- the two branches of its loop has been polled, and if it has not ended, the last configuration that
-- it has yielded is the one that `Rx::get` gives.
pub run-watched :
    (ip : Ipnet) (nets : List ip.IpNet) (domain : String) (mode : DefaultAllow) (timeout : ℕ)
    (us : List Update) (name pod_name : String) (p : ℕ) (rx : Rx) (ts : List Turn)
    (bs : List Branch)
    → lookup name pod_name p (run us (new {ip = ip} nets domain mode timeout)).lookups ≡ some rx
    → polls_inner bs ≡ true
    → polls_outer bs ≡ true
    → (let idx = run us (new {ip = ip} nets domain mode timeout) in
        let st = turns ts (idx, start (into_stream rx idx.links) (world_of idx)) in
        (polls bs (world_of st.0) st.1).stream.ended ≡ false)
    → let idx = run us (new {ip = ip} nets domain mode timeout) in
      let st = turns ts (idx, start (into_stream rx idx.links) (world_of idx)) in
      (before : List (InboundServer ip)) × ((polls bs (world_of st.0) st.1).yielded
        ≡ rx_get st.0.links st.0.configs rx ∷ before)
unfolding rx_get
run-watched ip nets domain mode timeout us name pod_name p rx ts bs h i o e =
    let idx = run us (new {ip = ip} nets domain mode timeout) in
    let st = turns ts (idx, start (into_stream rx idx.links) (world_of idx)) in
    let w = world_of st.0 in
    let v = polls bs w st.1 in
    let t = watched-InTune ip nets domain mode timeout us name pod_name p rx ts h in
    let c = polls-IsCurrent rx w bs st.1 t.opened t.current in
    let (at_inner, at_outer) = polls-Settled w bs st.1 (inl i) (inl o) e in
    let outer_seen = has_changed-false v.stream.outer w.links at_outer in
    let linked = c.linked (outer_seen ∙ ap w.links.version c.chan) in
    let held = c.held (has_changed-false v.stream.inner w.configs at_inner) in
    let (before, shown, n) = c.shown in
    (
      map (mk_server v.stream.kubelet) before,
      shown
          ∙ ap (λ s. mk_server v.stream.kubelet s ∷ map (mk_server v.stream.kubelet) before)
              (sym held ∙ ap (λ j. borrow j w.configs) (sym linked))
          ∙ ap
              (λ k.
                mk_server k (borrow (borrow rx.rx w.links) w.configs)
                ∷ map (mk_server v.stream.kubelet) before)
              c.kubelet,
    )
