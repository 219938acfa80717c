-- ===== src/Web/Subscription.antt =====
-- What a choice of triggers on the page subscribes to.
use zpr_res_monitor.Prelude.{
  ℕ, suc, ◌≡◌, refl, Option, none, some, List, [], ◌∷◌, Text, codes, All, get_elem?, ==_iff,
}
use zpr_res_monitor.Config.Types.{TriggerType}
use zpr_res_monitor.Predicate.{Predicate, or_and, new_predicate, set_callback}
use zpr_res_monitor.Predicate.Invariant.{IsValid, new_predicate-IsValid}
use zpr_res_monitor.Engine.{put, add_predicate}
use zpr_res_monitor.Engine.Delivery.{AllValid, AllValid-put}
use zpr_res_monitor.Web.{
  Field, Mail, Session, seglist, stoi, chosen, chosen_kind, notification, trigger_choose,
}
use zpr_res_monitor.Web.Fields.{HasNoColons, parts_of, seglist-eq-parts_of}

pub chosen-some {ℓ} :
    {A : Type ℓ} (types : List A) (segs : List Text) (i : ℕ) {s : Text} {n : ℕ} {a : A}
    → get_elem? segs i ≡ some s
    → stoi s ≡ some n
    → get_elem? types n ≡ some a
    → chosen types segs i ≡ some a
unfolding chosen
chosen-some types segs i h k e = rw (h, chosen) (rw k e)

pub chosen_kind-three :
    (types : List TriggerType) (f0 f1 f2 : Field) {a b c : TriggerType}
    → chosen types (seglist (f0 ∷ f1 ∷ f2 ∷ [])) 1 ≡ some c
    → chosen types (seglist (f0 ∷ f1 ∷ f2 ∷ [])) 3 ≡ some b
    → chosen types (seglist (f0 ∷ f1 ∷ f2 ∷ [])) 5 ≡ some a
    → chosen_kind types (f0 ∷ f1 ∷ f2 ∷ []) ≡ some (some (or_and a b c))
unfolding chosen_kind
chosen_kind-three types f0 f1 f2 x0 x1 x2 = rw (x2, chosen_kind) (rw (x1, x0) refl)

-- Choosing three triggers by fields with no colon, whose values `stoi` reads as the numbers of
-- configured triggers, subscribes to `(a OR b) AND c`, where `c` is the trigger of the field that the
-- server gives first, `b` of the second and `a` of the third. The predicate mails the current user, is
-- registered under its identity, and all predicates stay valid if they were.
pub trigger_choose_three :
    (types : List TriggerType) (k0 v0 k1 v1 k2 v2 : Text) (i0 i1 i2 : ℕ) (a b c : TriggerType)
    (s : Session)
    → All HasNoColons ((k0, v0) ∷ (k1, v1) ∷ (k2, v2) ∷ [])
    → stoi (32 ∷ v0) ≡ some i0
    → stoi (32 ∷ v1) ≡ some i1
    → stoi (32 ∷ v2) ≡ some i2
    → get_elem? types i0 ≡ some c
    → get_elem? types i1 ≡ some b
    → get_elem? types i2 ≡ some a
    → AllValid s.store
    → (p : Predicate (Option Mail)) × (s' : Session) × (trigger_choose types
          ((k0, v0) ∷ (k1, v1) ∷ (k2, v2) ∷ [])
          s
        ≡ some (codes "Your subscription has been saved!", s'))
      × (p.kind ≡ or_and a b c)
      × (p.callback ≡ some (notification s.user_name s.user_email (or_and a b c)))
      × (s'.store s.next_identity ≡ some p)
      × (s'.registry ≡ add_predicate s.next_identity p s.registry)
      × AllValid s'.store
unfolding trigger_choose put set_callback new_predicate
trigger_choose_three types k0 v0 k1 v1 k2 v2 i0 i1 i2 a b c s h n0 n1 n2 e0 e1 e2 all =
    let fs : List Field = (k0, v0) ∷ (k1, v1) ∷ (k2, v2) ∷ [] in
    let segs : seglist fs ≡ parts_of fs = seglist-eq-parts_of fs h in
    let x0 : chosen types (seglist fs) 1 ≡ some c =
      rw segs (chosen-some types (parts_of fs) 1 refl n0 e0) in
    let x1 : chosen types (seglist fs) 3 ≡ some b =
      rw segs (chosen-some types (parts_of fs) 3 refl n1 e1) in
    let x2 : chosen types (seglist fs) 5 ≡ some a =
      rw segs (chosen-some types (parts_of fs) 5 refl n2 e2) in
    let p : Predicate (Option Mail) =
      set_callback (some (notification s.user_name s.user_email (or_and a b c)))
        (new_predicate none (or_and a b c)) in
    let valid : IsValid p = new_predicate-IsValid {C = Option Mail} none (or_and a b c) in
    (
      p,
      record s {
        next_identity = suc s.next_identity;
        registry = add_predicate s.next_identity p s.registry;
        store = put s.next_identity p s.store;
      },
      rw (chosen_kind-three types (k0, v0) (k1, v1) (k2, v2) x0 x1 x2, trigger_choose) refl,
      refl,
      refl,
      rw ((==_iff s.next_identity s.next_identity).1 refl) refl,
      refl,
      AllValid-put s.next_identity p s.store valid all,
    )
