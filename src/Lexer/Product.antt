-- ===== src/Lexer/Product.antt =====
-- The end of a line: the cross product of the values and the durations that were collected.
use native.Mathlib.Nat.{suc-add, zero-add, suc-mul, zero-mul}
use zpr_res_monitor.Prelude.{
  ℕ, zero, suc, ◌+◌, ◌*◌, ◌≡◌, refl, ◌∙◌, sym, ap, List, [], ◌∷◌, ◌++◌, some, map, length,
  length-append, length-map, get_elem?, arith, Text,
}
use zpr_res_monitor.Config.Types.{TriggerType, LogType, ResourceValue}
use zpr_res_monitor.Lexer.State.{
  Lexer, Condition, ok, triggers_product, logs_product, produce_triggers_crossproduct,
  produce_logs_crossproduct, yy_pop_state,
}
use zpr_res_monitor.Lexer.Rules.{
  do_action, end_trigger, end_log, do_push_trigger_duration, do_push_resolution,
}

get_elem?-append :
    {A : Type 0} (xs ys : List A) (i : ℕ) → get_elem? (xs ++ ys) (length xs + i) ≡ get_elem? ys i
get_elem?-append [] ys i = rw zero-add refl
get_elem?-append (x ∷ xs) ys i = rw suc-add (get_elem?-append xs ys i)

module _ {A B : Type 0} where
  get_elem?-map :
      (f : A → B) (xs : List A) (zs : List B) (i : ℕ) {x : A}
      → get_elem? xs i ≡ some x
      → get_elem? (map f xs ++ zs) i ≡ some (f x)
  get_elem?-map f [] zs i h = ground arith
  get_elem?-map f (y ∷ xs) zs zero h = ground arith
  get_elem?-map f (y ∷ xs) zs (suc i) h = get_elem?-map f xs zs i h

module _ {A B C : Type 0} (f : A → B → C) where
  -- Two nested loops that push `f a b`.
  abbrev pub product : List A → List B → List C
  product [] bs = []
  product (a ∷ as') bs = map (f a) bs ++ product as' bs

  length-product : (as' : List A) (bs : List B) → length (product as' bs) ≡ length as' * length bs
  length-product [] bs = sym (zero-mul _)
  length-product (a ∷ as') bs =
      rw
        (
          length-append (map (f a) bs) (product as' bs),
          length-map (f a) bs,
          length-product as' bs,
          suc-mul,
        )
        (omega arith)

  get_elem?-product :
      (as' : List A) (bs : List B) (i j : ℕ) {a : A} {b : B}
      → get_elem? as' i ≡ some a
      → get_elem? bs j ≡ some b
      → get_elem? (product as' bs) (i * length bs + j) ≡ some (f a b)
  get_elem?-product [] bs i j h k = ground arith
  get_elem?-product (x ∷ as') bs zero j {a} h k =
      let same : x ≡ a = ground arith in
      rw (zero-mul, zero-add, same) (get_elem?-map (f a) bs (product as' bs) j k)
  get_elem?-product (x ∷ as') bs (suc i) j h k =
      let place : suc i * length bs + j ≡ length (map (f x) bs) + (i * length bs + j) =
        rw (suc-mul, length-map (f x) bs) (omega arith) in
      rw place (
        get_elem?-append (map (f x) bs) (product as' bs) (i * length bs + j)
        ∙ get_elem?-product as' bs i j h k)

-- The trigger of a value and a duration.
abbrev pub with_value : TriggerType → ResourceValue → ℕ → TriggerType
with_value t v seconds = record t { trigger_value = v; duration = seconds }

-- The log of a duration and a resolution.
abbrev pub with_times : LogType → ℕ → ℕ → LogType
with_times l seconds r = record l { resolution = r; duration = seconds }

pub triggers_product_lem :
    (t : TriggerType) (vs : List ResourceValue) (ds : List ℕ)
    → triggers_product t vs ds ≡ product (with_value t) vs ds
unfolding triggers_product
triggers_product_lem t [] ds = refl
triggers_product_lem t (v ∷ vs) ds =
    ap (◌++◌ (map (with_value t v) ds)) (triggers_product_lem t vs ds)

pub logs_product_lem :
    (l : LogType) (ds rs : List ℕ) → logs_product l ds rs ≡ product (with_times l) ds rs
unfolding logs_product
logs_product_lem l [] rs = refl
logs_product_lem l (d ∷ ds) rs = ap (◌++◌ (map (with_times l d) rs)) (logs_product_lem l ds rs)

-- The scanner after the end of a trigger line.
abbrev pub ended : Lexer → Condition → List Condition → Lexer
ended s c deeper =
    produce_triggers_crossproduct
      (record (do_push_trigger_duration s) { condition = c; stack = deeper })

-- At the end of a trigger line, two states deep, both states are left, the collected values and
-- durations are cleared, and as many triggers as there are pairs of a value and a duration, the
-- last one included, are added behind those that are there; the trigger of value `i` and duration
-- `j` is the `i * durations + j`-th of them.
pub do_action-end_trigger :
    (text : Text) (s : Lexer) (c1 c2 : Condition) (deeper : List Condition) (i j : ℕ)
    (v : ResourceValue) (seconds : ℕ)
    → s.stack ≡ c1 ∷ c2 ∷ deeper
    → get_elem? s.trigger_resource_values i ≡ some v
    → get_elem? (s.trigger_duration_times ++ (s.current_duration_time ∷ [])) j ≡ some seconds
    → (s' : Lexer) × (new : List TriggerType) × (do_action end_trigger text s ≡ ok s')
      × (s'.condition ≡ c2)
      × (s'.stack ≡ deeper)
      × (s'.trigger_resource_values ≡ [])
      × (s'.trigger_duration_times ≡ [])
      × (s'.current_duration_time ≡ 0)
      × (s'.trigger_types ≡ s.trigger_types ++ new)
      × (length new ≡ length s.trigger_resource_values * suc (length s.trigger_duration_times))
      × (get_elem? new (i * suc (length s.trigger_duration_times) + j)
          ≡ some (with_value s.current_trigger_type v seconds))
unfolding do_action do_push_trigger_duration yy_pop_state produce_triggers_crossproduct
do_action-end_trigger text s c1 c2 deeper i j v seconds h a b =
    let ds = s.trigger_duration_times ++ (s.current_duration_time ∷ []) in
    let vs = s.trigger_resource_values in
    let t = s.current_trigger_type in
    let size : length ds ≡ suc (length s.trigger_duration_times) =
      omega (arith, length-append s.trigger_duration_times (s.current_duration_time ∷ [])) in
    (
      ended s c2 deeper,
      product (with_value t) vs ds,
      rw h refl,
      refl,
      refl,
      refl,
      refl,
      refl,
      ap (◌++◌ s.trigger_types) (triggers_product_lem t vs ds),
      length-product (with_value t) vs ds ∙ ap (◌*◌ (length vs)) size,
      rw (← size) (get_elem?-product (with_value t) vs ds i j a b),
    )

abbrev pub ended_log : Lexer → Condition → List Condition → Lexer
ended_log s c deeper =
    produce_logs_crossproduct (record (do_push_resolution s) { condition = c; stack = deeper })

-- At the end of a log line, two states deep, the same holds of the durations and the resolutions.
pub do_action-end_log :
    (text : Text) (s : Lexer) (c1 c2 : Condition) (deeper : List Condition) (i j seconds r : ℕ)
    → s.stack ≡ c1 ∷ c2 ∷ deeper
    → get_elem? s.log_durations i ≡ some seconds
    → get_elem? (s.log_resolutions ++ (s.current_duration_time ∷ [])) j ≡ some r
    → (s' : Lexer) × (new : List LogType) × (do_action end_log text s ≡ ok s')
      × (s'.condition ≡ c2)
      × (s'.stack ≡ deeper)
      × (s'.log_durations ≡ [])
      × (s'.log_resolutions ≡ [])
      × (s'.current_duration_time ≡ 0)
      × (s'.log_types ≡ s.log_types ++ new)
      × (length new ≡ length s.log_durations * suc (length s.log_resolutions))
      × (get_elem? new (i * suc (length s.log_resolutions) + j)
          ≡ some (with_times s.current_log_type seconds r))
unfolding do_action do_push_resolution yy_pop_state produce_logs_crossproduct
do_action-end_log text s c1 c2 deeper i j seconds r h a b =
    let rs = s.log_resolutions ++ (s.current_duration_time ∷ []) in
    let ds = s.log_durations in
    let l = s.current_log_type in
    let size : length rs ≡ suc (length s.log_resolutions) =
      omega (arith, length-append s.log_resolutions (s.current_duration_time ∷ [])) in
    (
      ended_log s c2 deeper,
      product (with_times l) ds rs,
      rw h refl,
      refl,
      refl,
      refl,
      refl,
      refl,
      ap (◌++◌ s.log_types) (logs_product_lem l ds rs),
      length-product (with_times l) ds rs ∙ ap (◌*◌ (length ds)) size,
      rw (← size) (get_elem?-product (with_times l) ds rs i j a b),
    )
