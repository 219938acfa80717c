-- ===== src/Web/Fields.antt =====
-- The segments of a query whose keys and values hold no colon.
use zpr_res_monitor.Prelude.{◌==◌, ◌≡◌, refl, ◌∙◌, ap, false, List, [], ◌∷◌, ◌++◌, Text, All}
use mathlib.Core.List.{append-nil, append_assoc}
use zpr_res_monitor.Web.{Field, write_fields, segments_from, seglist}

abbrev pub HasNoColon : Text → Type 0
HasNoColon = All λ c. (c == 58) ≡ false

abbrev pub HasNoColons : Field → Type 0
HasNoColons f = HasNoColon f.0 × HasNoColon f.1

-- The key, and the value behind a space.
abbrev pub parts_of : List Field → List Text
parts_of [] = []
parts_of ((k, v) ∷ fs) = k ∷ (32 ∷ v) ∷ parts_of fs

segments_from-append :
    (segment cs rest : Text)
    → HasNoColon cs
    → segments_from segment (cs ++ (58 ∷ rest)) ≡ (segment ++ cs) ∷ segments_from [] rest
unfolding segments_from
segments_from-append segment [] rest h = rw append-nil refl
segments_from-append segment (c ∷ cs) rest h = rw h.0 (
    segments_from-append (segment ++ (c ∷ [])) cs rest h.1
    ∙ ap (λ s. s ∷ segments_from [] rest) (append_assoc segment (c ∷ []) cs))

-- If no key and no value holds a colon, the segments are the keys and the values in turn, each value
-- with a space in front.
pub seglist-eq-parts_of : (fs : List Field) → All HasNoColons fs → seglist fs ≡ parts_of fs
unfolding seglist write_fields
seglist-eq-parts_of [] h = refl
seglist-eq-parts_of ((k, v) ∷ fs) h =
    let body : Text = v ++ (58 ∷ write_fields fs) in
    let first : segments_from [] (k ++ (58 ∷ 32 ∷ body)) ≡ k ∷ segments_from [] (32 ∷ body) =
      segments_from-append [] k (32 ∷ body) h.0.0 in
    let second : segments_from [] (32 ∷ body) ≡ (32 ∷ v) ∷ segments_from [] (write_fields fs) =
      segments_from-append [] (32 ∷ v) (write_fields fs) (refl, h.0.1) in
    let rest : segments_from [] (write_fields fs) ≡ parts_of fs = seglist-eq-parts_of fs h.1 in
    first ∙ ap (◌∷◌ k) (second ∙ ap (◌∷◌ (32 ∷ v)) rest)
