-- ===== src/Core/Display.antt =====
-- controller/core/src/identity_match.rs: how an identity match is written.
use Prim.Native.String.{◌++◌ as ◌<>◌}
use text.Mathlib.TextLemmas.{append-nil, append_assoc}
use polixy.Text.{join}
use polixy.Prelude.{◌≡◌, ap, sym, ◌∙◌, String, List, [], ◌∷◌}
use polixy.Core.{IdentityMatch, name, suffix}

write_parts : List String → String
write_parts [] = ""
write_parts (part ∷ parts) = "." <> (part <> write_parts parts)

unfoldable pub display : IdentityMatch → String
unfolding write_parts
display (name n) = n
display (suffix parts) = "*" <> write_parts parts

write_parts_lem : (p : String) (ps : List String) → write_parts (p ∷ ps) ≡ "." <> join "." (p ∷ ps)
unfolding write_parts join
write_parts_lem p [] = ap (λ s. "." <> s) (append-nil p)
write_parts_lem p (q ∷ ps) = ap (λ s. "." <> (p <> s)) (write_parts_lem q ps)

-- A suffix that has parts is written as `*.` and the parts, with dots between them.
pub display-suffix :
    (p : String) (ps : List String) → display (suffix (p ∷ ps)) ≡ "*." <> join "." (p ∷ ps)
unfolding display
display-suffix p ps = ap (λ s. "*" <> s) (write_parts_lem p ps) ∙ sym (append_assoc "*" "." _)
