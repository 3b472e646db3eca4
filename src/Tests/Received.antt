-- ===== src/Tests/Received.antt =====
-- A watch that fails twice before it reports a node, for the examples.
use polixy.Prelude.{◌≡◌, ◌↔◌, refl, true, some, List, [], ◌∷◌}
use polixy.DefaultAllow.{deny}
use polixy.K8s
use polixy.K8s.Watch.{Item, event, error, Watch, from, recv}
use polixy.Index.{new}
use polixy.Index.Run.{Event, node, applied, restarted, nodes, received, Loop, poll, polls, start}
use polixy.Index.Run.Received.{After, taken, recv_iff, polls-recv}
use polixy.Tests
use polixy.Tests.{the_node}

abbrev listed : Event K8s.Node
listed = restarted []

abbrev later : List (Item (Event K8s.Node))
later = error "gone" ∷ event (applied the_node) ∷ []

abbrev watch : Watch (Event K8s.Node)
watch = from (error "refused" ∷ error "reset" ∷ event listed ∷ later)

abbrev rest : Watch (Event K8s.Node)
rest = record { ready = true; rx = later }

abbrev loop : Loop Tests.nets
loop = start (new [] "cluster.local" deny 10)

recv_iff_example :
    (recv watch ≡ (some listed, rest)) ↔ (After watch.rx listed later × (rest.ready ≡ true))
recv_iff_example = recv_iff watch listed rest

recv-listed : recv watch ≡ (some listed, rest)
recv-listed = (recv_iff watch listed rest).1 (("refused" ∷ "reset" ∷ [], refl), refl)

polls-recv_example :
    polls (taken nodes node watch.rx) loop
    ≡ polls (taken nodes node later) (poll (received (node listed)) loop)
polls-recv_example = polls-recv nodes node (λ e. refl) watch listed rest loop recv-listed
