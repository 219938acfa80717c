-- ===== src/System/Soundness.antt =====
-- What holds in every state that the running program can come to.
use mathlib.Core.Option.{some-injective}
use zpr_res_monitor.Prelude.{
  ℕ, suc, ◌≤◌, ◌==◌, ==_iff, ◌≡◌, refl, ◌∙◌, ap, ◌⊎◌, inl, inr, Bool, false, Option, none, some,
  List, Text, arith, Option-cases, Bool-cases,
}
use zpr_res_monitor.Double.{Double}
use zpr_res_monitor.Config.Types.{TriggerType}
use zpr_res_monitor.Predicate.{Predicate, Kind, new_predicate, set_callback}
use zpr_res_monitor.Predicate.Invariant.{IsValid, new_predicate-IsValid}
use zpr_res_monitor.Sampling.Buffer.{CircularBuffer}
use zpr_res_monitor.Sampling.Manager.Safety.{IsSafe}
use zpr_res_monitor.Engine.{put, add_predicate}
use zpr_res_monitor.Engine.Delivery.{AllValid, AllValid-put}
use zpr_res_monitor.Engine.Lasting.{Lasts}
use zpr_res_monitor.Web.{Field, Mail, Session, notification, chosen_kind, trigger_choose, set_email}
use zpr_res_monitor.System.{System}
use zpr_res_monitor.System.Callbacks.{AllCallbacks, AllCallbacks-put}

-- A callback that has been set.
abbrev pub Mails : Option Mail → Type 0
Mails none = ⊥
Mails (some m) = Unit

-- The session once a predicate has been subscribed to.
unfoldable pub new_subscription : Kind → Session → Predicate (Option Mail)
unfolding set_callback new_predicate
new_subscription k s =
    set_callback (some (notification s.user_name s.user_email k)) (new_predicate none k)

unfoldable pub saved : Kind → Session → Session
unfolding new_subscription put add_predicate
saved k s =
    let p = new_subscription k s in
    record s {
      next_identity = suc s.next_identity;
      registry = add_predicate s.next_identity p s.registry;
      store = put s.next_identity p s.store;
    }

-- A choice leaves the session alone or subscribes to a predicate.
pub trigger_choose-cases :
    (triggers : List TriggerType) (fs : List Field) (s : Session) {answer : Text} {s' : Session}
    → trigger_choose triggers fs s ≡ some (answer, s')
    → (s ≡ s') ⊎ ((k : Kind) × (saved k s ≡ s'))
unfolding trigger_choose saved new_subscription
trigger_choose-cases triggers fs s {answer} {s'} e = elim (Option-cases (chosen_kind triggers fs)) [
  | inl throws ↦
      let stop : ◌≡◌ {A = Option (Text × Session)} none (some (answer, s')) =
        rw (throws, trigger_choose) at e in
      absurd (ground arith)
  | inr (none, wrong) ↦
      let same : some (_, s) ≡ some (answer, s') = rw (wrong, trigger_choose) at e in
      inl (ap (λ x. x.1) (some-injective _ _ same))
  | inr (some k, right) ↦
      let same : some (_, saved k s) ≡ some (answer, s') = rw (right, trigger_choose) at e in
      inr (k, ap (λ x. x.1) (some-injective _ _ same))
]

-- Setting the user leaves the engine alone.
pub set_email-engine :
    (fs : List Field) (s : Session) {answer : Bool} {s' : Session}
    → set_email fs s ≡ some (answer, s')
    → (s.next_identity ≡ s'.next_identity) × (s.registry ≡ s'.registry) × (s.store ≡ s'.store)
unfolding set_email
set_email-engine fs s e = ground arith

pub none-Lasts : (o o' : Option (Predicate (Option Mail))) → o ≡ none → Lasts o o' → o' ≡ none
none-Lasts none none e lasts = refl
none-Lasts none (some q) e lasts = absurd lasts
none-Lasts (some p) o' e lasts = absurd (ground arith)

module _ (b : CircularBuffer) {W : Type 0} ⦃d : Double W⦄ where
  -- The manager is safe, the predicates are valid and have callbacks that send a mail, and the next
  -- identity is free, with all above it.
  pub record IsSound (s : System b W) : Type 0 where
    pub safe : IsSafe b s.manager
    pub valid : AllValid s.session.store
    pub calling : AllCallbacks Mails s.session.store
    pub fresh : (i : ℕ) → s.session.next_identity ≤ i → s.session.store i ≡ none

  -- The object under an identity has this kind and this callback.
  abbrev pub Held : ℕ → Kind → Option Mail → System b W → Type 0
  Held i k c s =
      (p : Predicate (Option Mail)) × (s.session.store i ≡ some p) × (p.kind ≡ k) × (p.callback ≡ c)

  pub Held-Lasts :
      (i : ℕ) (k : Kind) (c : Option Mail) (s s' : System b W)
      → Lasts (s.session.store i) (s'.session.store i)
      → Held i k c s
      → Held i k c s'
  Held-Lasts i k c s s' lasts (p, here, kind, callback) = elim (Option-cases (s'.session.store i)) [
    | inl gone ↦ absurd (rw (here, gone) at lasts)
    | inr (q, there) ↦
        let same : Lasts (some p) (some q) = rw (here, there) at lasts in
        (q, there, same.0 ∙ kind, same.1 ∙ callback)
  ]

  -- A new subscription takes a free place.
  pub saved-IsSound :
      (k : Kind) (s : System b W) → IsSound s → IsSound (record s { session = saved k s.session })
  unfolding saved new_subscription put
  saved-IsSound k s v =
      let valid_one : IsValid (new_subscription k s.session) =
        new_predicate-IsValid {C = Option Mail} none k in
      record {
        safe = v.safe;
        valid =
            AllValid-put s.session.next_identity (new_subscription k s.session) s.session.store
              valid_one v.valid;
        calling =
            AllCallbacks-put Mails s.session.next_identity (new_subscription k s.session)
              s.session.store tt v.calling;
        fresh = λ i h.
            let other : (s.session.next_identity == i) ≡ false = ground arith in
            rw other (v.fresh i (omega arith));
      }

  pub saved-Held :
      (k : Kind) (s : System b W) (i : ℕ) (k' : Kind) (c : Option Mail)
      → IsSound s
      → Held i k' c s
      → Held i k' c (record s { session = saved k s.session })
  unfolding saved put
  saved-Held k s i k' c v (p, here, kind, callback) =
      elim (Bool-cases (s.session.next_identity == i)) [
        | inl hit ↦
            let free : s.session.store i ≡ none =
              v.fresh i (omega (arith, (==_iff s.session.next_identity i).0 hit)) in
            absurd (ground arith)
        | inr miss ↦ (p, rw miss here, kind, callback)
      ]
