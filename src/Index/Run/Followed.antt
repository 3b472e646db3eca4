-- ===== src/Index/Run/Followed.antt =====
-- The whole way of a configuration: the index, the stream of the API server, and the task of the proxy
-- that follows the port.
use polixy.Prelude.{
  ℕ, String, ◌≡◌, refl, ap, subst, ◌∙◌, true, false, some, List, [], ◌∷◌, map, reverse, All,
  string_eq, nat_eq,
}
use mathlib.Core.List.{reverse-append, map-append}
use polixy.Core.{Ipnet, InboundServer, detect}
use polixy.DefaultAllow.{DefaultAllow}
use polixy.Reply.{ok, ◌>>=◌}
use polixy.Proto
use polixy.Proto.{Wire, IsWire}
use polixy.Grpc.{item, response_stream, to_server}
use polixy.Client.Decode.{Fits, inbound_of, try_from-to_server}
use polixy.Client.Calls.{read_message, decode, map_err}
use polixy.Client.Ports.{PortTask, Event, next, opening, streaming, step, steps}
use polixy.Client.Ports.Recovery.{steps-append, step-streaming, step-opening}
use polixy.Lookup.{Rx, lookup, rx_get}
use polixy.Lookup.Stream.{Branch, into_stream, start, polls}
use polixy.Lookup.Stream.Settled.{polls_inner, polls_outer}
use polixy.Index.{new}
use polixy.Index.Run.{Update, run}
use polixy.Index.Run.Streams.{Turn, world_of, turns}
use polixy.Index.Run.Streams.Watched.{run-watched}
use polixy.Index.Run.Streams.Tuned.{polls-IsTimely}

module _ {ip : Ipnet} (w : Wire ip) where
  -- what the client's stream gives for a message of the server
  abbrev pub heard : Proto.Server w → Event ip
  heard proto = next (read_message w (ok proto) >>= λ inbound. ok (some inbound))

  -- a message is read as it was sent
  read_lem :
      (s : InboundServer ip)
      → IsWire w
      → Fits s.protocol
      → heard (to_server w s) ≡ next (ok (some (inbound_of s)))
  unfolding read_message
  read_lem s is fits =
      ap (λ r. next (map_err decode r >>= λ inbound. ok (some inbound)))
        (try_from-to_server w is s fits)

  items_lem :
      (ss : List (InboundServer ip))
      → map heard (response_stream w (map item ss)) ≡ map (λ s. heard (to_server w s)) ss
  unfolding response_stream
  items_lem [] = refl
  items_lem (s ∷ ss) = ap (λ l. heard (to_server w s) ∷ l) (items_lem ss)

  module _ (is : IsWire w) where
    -- the configurations of a stream, the last one first, are heard in their order
    followed_lem :
        (s : InboundServer ip) (ss : List (InboundServer ip)) (t : PortTask ip)
        → All (λ x. Fits x.protocol) (s ∷ ss)
        → t.phase ≡ opening
        → steps (map (λ x. heard (to_server w x)) (reverse (s ∷ ss))) t
          ≡ record { phase = streaming; watched = some (inbound_of s) }
    unfolding steps
    followed_lem s [] t (fits, fs) p =
        ap (λ e. step e t) (read_lem s is fits) ∙ step-opening (inbound_of s) t p
    followed_lem s (r ∷ ss) t (fits, fs) p =
        ap (λ l. steps (map (λ x. heard (to_server w x)) l) t) (reverse-append (s ∷ []) (r ∷ ss))
        ∙ ap (λ l. steps l t) (map-append (λ x. heard (to_server w x)) (reverse (r ∷ ss)) (s ∷ []))
        ∙ steps-append (map (λ x. heard (to_server w x)) (reverse (r ∷ ss))) _ t
        ∙ ap (λ e. step e (steps (map (λ x. heard (to_server w x)) (reverse (r ∷ ss))) t))
            (read_lem s is fits)
        ∙ step-streaming (inbound_of s)
            (steps (map (λ x. heard (to_server w x)) (reverse (r ∷ ss))) t)
            (ap (λ (x : PortTask ip). x.phase) (followed_lem r ss t fs p))

    -- A proxy that follows a port and has opened its stream, and that has been given what the server has
    -- sent after any updates of the index and any polls of the stream, in any order, holds the
    -- configuration that `Rx::get` gives by then, as the client reads it: once each of the two branches
    -- of the stream has been polled, if it has not ended, and if the timeout of the index fits a Duration.
    pub run-followed :
        (nets : List ip.IpNet) (domain : String) (mode : DefaultAllow) (timeout : ℕ)
        (us : List Update) (name pod_name : String) (p : ℕ) (rx : Rx) (ts : List Turn)
        (bs : List Branch) (t : PortTask ip)
        → lookup name pod_name p (run us (new {ip = ip} nets domain mode timeout)).lookups ≡ some rx
        → polls_inner bs ≡ true
        → polls_outer bs ≡ true
        → t.phase ≡ opening
        → Fits (detect timeout)
        → (let idx = run us (new {ip = ip} nets domain mode timeout) in
            let st = turns ts (idx, start (into_stream rx idx.links) (world_of idx)) in
            (polls bs (world_of st.0) st.1).stream.ended ≡ false)
        → let idx = run us (new {ip = ip} nets domain mode timeout) in
          let st = turns ts (idx, start (into_stream rx idx.links) (world_of idx)) in
          let v = polls bs (world_of st.0) st.1 in
          (steps (map heard (response_stream w (map item (reverse v.yielded)))) t).watched
          ≡ some (inbound_of (rx_get st.0.links st.0.configs rx))
    run-followed nets domain mode timeout us name pod_name p rx ts bs t h i o phase fits going =
        let idx = run us (new {ip = ip} nets domain mode timeout) in
        let st = turns ts (idx, start (into_stream rx idx.links) (world_of idx)) in
        let v = polls bs (world_of st.0) st.1 in
        let (before, shown) =
          run-watched ip nets domain mode timeout us name pod_name p rx ts bs h i o going in
        let sent = polls-IsTimely ip nets domain mode timeout us name pod_name p rx ts bs h fits in
        ap (λ l. (steps l t).watched) (items_lem (reverse v.yielded))
        ∙ ap (λ l. (steps (map (λ x. heard (to_server w x)) (reverse l)) t).watched) shown
        ∙ ap (λ (x : PortTask ip). x.watched)
            (followed_lem (rx_get st.0.links st.0.configs rx) before t
              (subst (λ l. All (λ x. Fits x.protocol) l) shown sent) phase)
