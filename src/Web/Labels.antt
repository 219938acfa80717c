-- ===== src/Web/Labels.antt =====
-- The options of the page, as a browser shows them and as it sends the chosen one back.
use zpr_res_monitor.Prelude.{
  ℕ, ◌<◌, ◌==◌, ◌^◌, ◌≡◌, refl, sym, ◌∙◌, ap, true, false, not, none, some, inr, List, [], ◌∷◌,
  ◌++◌, Text, codes, decimal, All-append, length, get_elem?, every, and_true, arith,
}
use zpr_res_monitor.Config.Types.{
  ResourceUnit, ResourceValue, Resource, FluctuationType, TriggerType, percent, mb, gb, cpu, memory,
  disk, under, over,
}
use zpr_res_monitor.Config.Print.{
  show_fluctuation, show_resource, show_unit, show_value, show_trigger,
}
use zpr_res_monitor.Predicate.{element, both, or_and}
use zpr_res_monitor.Web.{chosen_kind}
use zpr_res_monitor.Web.Fields.{HasNoColon}
use zpr_res_monitor.Web.Page.{selections}
use zpr_res_monitor.Web.Options.{chosen_kind-decimal}
use zpr_res_monitor.Web.Browser.{
  Choice, Lacks, read_option, read_options, choices, decimal-Lacks, read_options-selections,
  choices-at,
}

all_lack : (c : ℕ) (cs : Text) → every (λ d. not (d == c)) cs ≡ true → Lacks c cs
all_lack c [] h = tt
all_lack c (d ∷ cs) h =
    let (first, others) = and_true (not (d == c)) (every (λ d. not (d == c)) cs) h in
    (ground (arith, first), all_lack c cs others)

show_resource-Lacks : (r : Resource) → Lacks 60 (show_resource r)
unfolding show_resource
show_resource-Lacks cpu = all_lack 60 (codes "CPU") refl
show_resource-Lacks memory = all_lack 60 (codes "RAM") refl
show_resource-Lacks disk = all_lack 60 (codes "HDD") refl

show_fluctuation-Lacks : (f : FluctuationType) → Lacks 60 (show_fluctuation f)
unfolding show_fluctuation
show_fluctuation-Lacks under = all_lack 60 (codes "under") refl
show_fluctuation-Lacks over = all_lack 60 (codes "over") refl

show_unit-Lacks : (u : ResourceUnit) → Lacks 60 (show_unit u)
unfolding show_unit
show_unit-Lacks percent = all_lack 60 (codes "%") refl
show_unit-Lacks mb = all_lack 60 (codes "MB") refl
show_unit-Lacks gb = all_lack 60 (codes "GB") refl

-- The unit of time that is printed behind a value of the disk.
per_second : Resource → Text
per_second r = elim r [ disk ↦ codes "/s" | _ ↦ [] ]

per_second-Lacks : (r : Resource) → Lacks 60 (per_second r)
unfolding per_second
per_second-Lacks cpu = tt
per_second-Lacks memory = tt
per_second-Lacks disk = all_lack 60 (codes "/s") refl

-- Text without a tag in front of text without a tag.
also : (xs ys : Text) → Lacks 60 xs → Lacks 60 ys → Lacks 60 (xs ++ ys)
also xs ys h k = All-append (λ d. (d == 60) ≡ false) xs ys h k

show_value-Lacks : (v : ResourceValue) → Lacks 60 (show_value v)
unfolding show_value
show_value-Lacks v =
    also (decimal v.value) (show_unit v.unit_type) (decimal-Lacks 60 v.value (inr (omega arith)))
      (show_unit-Lacks v.unit_type)

show_trigger-Lacks : (t : TriggerType) → Lacks 60 (show_trigger t)
unfolding show_trigger per_second
show_trigger-Lacks t =
    let x0 : Text = codes "Trigger " ++ show_resource t.resource in
    let h0 : Lacks 60 x0 =
      also (codes "Trigger ") (show_resource t.resource) (all_lack 60 (codes "Trigger ") refl)
        (show_resource-Lacks t.resource) in
    let x1 : Text = x0 ++ codes " " in
    let h1 : Lacks 60 x1 = also x0 (codes " ") h0 (all_lack 60 (codes " ") refl) in
    let x2 : Text = x1 ++ show_fluctuation t.fluctuation_type in
    let h2 : Lacks 60 x2 =
      also x1 (show_fluctuation t.fluctuation_type) h1
        (show_fluctuation-Lacks t.fluctuation_type) in
    let x3 : Text = x2 ++ codes " " in
    let h3 : Lacks 60 x3 = also x2 (codes " ") h2 (all_lack 60 (codes " ") refl) in
    let x4 : Text = x3 ++ show_value t.trigger_value in
    let h4 : Lacks 60 x4 =
      also x3 (show_value t.trigger_value) h3 (show_value-Lacks t.trigger_value) in
    let x5 : Text = x4 ++ per_second t.resource in
    let h5 : Lacks 60 x5 = also x4 (per_second t.resource) h4 (per_second-Lacks t.resource) in
    let x6 : Text = x5 ++ codes " last for " in
    let h6 : Lacks 60 x6 =
      also x5 (codes " last for ") h5 (all_lack 60 (codes " last for ") refl) in
    let x7 : Text = x6 ++ decimal t.duration in
    let h7 : Lacks 60 x7 =
      also x6 (decimal t.duration) h6 (decimal-Lacks 60 t.duration (inr (omega arith))) in
    also x7 (codes "s") h7 (all_lack 60 (codes "s") refl)

-- What an option of the page stands for.
abbrev StandsFor : List TriggerType → Choice → TriggerType → Type 0
StandsFor types c t =
    (i : ℕ) × (get_elem? types i ≡ some t) × (c.value ≡ decimal i) × (c.label ≡ show_trigger t)

offered :
    (types : List TriggerType) (rest : Text) (i : ℕ) {c : Choice}
    → read_option rest ≡ none
    → get_elem? (read_options (length types) (selections show_trigger 0 types ++ rest)) i ≡ some c
    → (t : TriggerType) × StandsFor types c t
offered types rest i stop e =
    let read : read_options (length types) (selections show_trigger 0 types ++ rest)
        ≡ choices show_trigger 0 types =
      read_options-selections show_trigger (length types) 0 types rest show_trigger-Lacks
        (omega arith) stop in
    let (t, at, value, label) =
      choices-at show_trigger 0 types i (sym (ap (λ l. get_elem? l i) read) ∙ e) in
    (t, (i, at, value ∙ ap decimal (omega arith), label))

-- Let the page offer the configured triggers, fewer than 2^31. A user who chooses from its options, and
-- sends their values under names without a colon, subscribes to just the triggers that the labels of
-- these options show: with one field to `a`, with two to `b AND a`, and with three to `(c OR b) AND a`,
-- where `a` is the trigger of the field that comes first.
pub choices_subscribe :
    (types : List TriggerType) (rest k0 k1 k2 : Text) (i0 i1 i2 : ℕ) (c0 c1 c2 : Choice)
    → HasNoColon k0
    → HasNoColon k1
    → HasNoColon k2
    → length types < 2 ^ 31
    → read_option rest ≡ none
    → get_elem? (read_options (length types) (selections show_trigger 0 types ++ rest)) i0 ≡ some c0
    → get_elem? (read_options (length types) (selections show_trigger 0 types ++ rest)) i1 ≡ some c1
    → get_elem? (read_options (length types) (selections show_trigger 0 types ++ rest)) i2 ≡ some c2
    → (a : TriggerType) × (b : TriggerType) × (c : TriggerType) × (c0.label ≡ show_trigger a)
      × (c1.label ≡ show_trigger b)
      × (c2.label ≡ show_trigger c)
      × (chosen_kind types ((k0, c0.value) ∷ []) ≡ some (some (element a)))
      × (chosen_kind types ((k0, c0.value) ∷ (k1, c1.value) ∷ []) ≡ some (some (both b a)))
      × (chosen_kind types ((k0, c0.value) ∷ (k1, c1.value) ∷ (k2, c2.value) ∷ [])
          ≡ some (some (or_and c b a)))
choices_subscribe types rest k0 k1 k2 i0 i1 i2 c0 c1 c2 h0 h1 h2 few stop e0 e1 e2 =
    let (a, (j0, at0, v0, l0)) = offered types rest i0 stop e0 in
    let (b, (j1, at1, v1, l1)) = offered types rest i1 stop e1 in
    let (c, (j2, at2, v2, l2)) = offered types rest i2 stop e2 in
    let (one, two, three) =
      chosen_kind-decimal types k0 k1 k2 j0 j1 j2 a b c h0 h1 h2 few at0 at1 at2 in
    (a, b, c, l0, l1, l2, rw v0 one, rw (v0, v1) two, rw (v0, v1, v2) three)
