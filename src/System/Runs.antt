-- ===== src/System/Runs.antt =====
-- The steps of the running program: each keeps it sound, and what users have subscribed to lasts.
use zpr_res_monitor.Prelude.{
  ℕ, suc, ◌≡◌, refl, sym, ◌∙◌, ◌⊎◌, ap, subst, inl, inr, true, false, Option, none, some, List, [],
  ◌∷◌, All, Bool-cases, arith,
}
use zpr_res_monitor.Double.{Double}
use zpr_res_monitor.Config.Types.{TriggerType, LogType}
use zpr_res_monitor.Predicate.{Kind}
use zpr_res_monitor.Sampling.Buffer.{CircularBuffer, IsCircular}
use zpr_res_monitor.Sampling.Triggers.{initialize_triggers}
use zpr_res_monitor.Sampling.Triggers.Table.{all_measurable}
use zpr_res_monitor.Sampling.Manager.{Reading}
use zpr_res_monitor.Sampling.Manager.Safety.{poll-IsSafe}
use zpr_res_monitor.Sampling.Manager.Polling.{new_manager-IsSafe}
use zpr_res_monitor.Engine.Delivery.{AllValid}
use zpr_res_monitor.Engine.Lasting.{deliver-Lasts}
use zpr_res_monitor.Web.{Mail, Session}
use zpr_res_monitor.System.{
  System, Connection, sends, all_returned, threw, call_all, Round, completed, mail_threw, failed,
  started, system_round, Step, polled, subscribed, choice_threw, email_set, email_threw, logs_shown,
  page_shown, Run, begun, went_on,
}
use zpr_res_monitor.System.Callbacks.{AllCallbacks, AllCallbacks-Lasts, deliver-All}
use zpr_res_monitor.System.Soundness.{
  Mails, IsSound, Held, Held-Lasts, none-Lasts, saved-IsSound, saved-Held, trigger_choose-cases,
  set_email-engine,
}

-- Each callback of a round, from the `n`-th on, has sent its mail.
abbrev pub AllSent : (ℕ → Connection) → ℕ → List (Option Mail) → Type 0
AllSent mails n [] = Unit
AllSent mails n (none ∷ fired) = ⊥
AllSent mails n (some m ∷ fired) = (sends (mails n) m ≡ true) × AllSent mails (suc n) fired

call_all-cases :
    (P : Option Mail → Type 0) (mails : ℕ → Connection) (n : ℕ) (fired : List (Option Mail))
    → All Mails fired
    → All P fired
    → ((call_all mails n fired ≡ all_returned) × AllSent mails n fired)
      ⊎ ((k : ℕ) × (m : Mail) × (call_all mails n fired ≡ threw k m)
          × (sends (mails k) m ≡ false)
          × P (some m))
unfolding call_all
call_all-cases P mails n [] h p = inl (refl, tt)
call_all-cases P mails n (none ∷ fired) h p = absurd h.0
call_all-cases P mails n (some m ∷ fired) h p = elim (Bool-cases (sends (mails n) m)) [
  | inr lost ↦ inr (n, m, rw (lost, call_all) refl, lost, p.0)
  | inl sent ↦ elim (call_all-cases P mails (suc n) fired h.1 p.1) [
    | inl (rest, all) ↦ inl (rw (sent, call_all) rest, (sent, all))
    | inr (k, m', rest, lost, its) ↦ inr (k, m', rw (sent, call_all) rest, lost, its)
  ]
]

module _ (b : CircularBuffer) {W : Type 0} ⦃d : Double W⦄ where
  -- The callback of a predicate that users have subscribed to.
  abbrev pub Subscribed : System b W → Option Mail → Type 0
  Subscribed s c = (i : ℕ) × (k : Kind) × Held b i k c s

  -- What has become of a round from `s`: a sound system, where the callbacks that were called are those
  -- of subscribed predicates and have all sent their mails, or the exception of such a mail that could
  -- not be sent. No other end is allowed.
  abbrev pub IsTaken : System b W → (ℕ → Connection) → Round b W → Type 0
  IsTaken s mails (completed s' fired) =
      IsSound b s' × AllSent mails 0 fired × All (Subscribed s) fired
  IsTaken s mails (mail_threw n m) = (sends (mails n) m ≡ false) × Subscribed s (some m)
  IsTaken s mails failed = ⊥

module _ (b : CircularBuffer) {W : Type 0} ⦃d : Double W⦄ (laws : IsCircular b)
    (logs : List LogType) (triggers : List TriggerType) where
  -- The state after a session is exchanged for an equal one.
  abbrev with_session : System b W → Session → System b W
  with_session s x = record s { session = x }

  -- What a step keeps: the soundness and each object with its kind and its callback.
  abbrev Keeps : System b W → System b W → Type 0
  Keeps s s' =
      IsSound b s' × ((i : ℕ) (k : Kind) (c : Option Mail) → Held b i k c s → Held b i k c s')

  -- A round fails in no other way than by a mail, and if it does not, it keeps what a step keeps.
  abbrev RoundKeeps : System b W → (ℕ → Connection) → Round b W → Type 0
  RoundKeeps s mails (completed s' fired) =
      Keeps s s' × AllSent mails 0 fired × All (Subscribed b s) fired
  RoundKeeps s mails (mail_threw n m) = (sends (mails n) m ≡ false) × Subscribed b s (some m)
  RoundKeeps s mails failed = ⊥

  -- A round of a sound system, whatever is read and whatever the mails find.
  round-Keeps :
      (mails : ℕ → Connection) (r : Reading W) (s : System b W)
      → IsSound b s
      → RoundKeeps s mails (system_round b mails r s)
  unfolding system_round
  round-Keeps mails r s v =
      let (m, calls, e, _, safe) = poll-IsSafe b laws r s.manager v.safe in
      let (registry, store, fired, f, valid, lasts, _) =
        deliver-Lasts calls s.session.registry s.session.store v.valid in
      let s' : System b W = record {
        manager = m;
        session = record s.session { registry = registry; store = store };
      } in
      let sound : IsSound b s' = record {
        safe = safe;
        valid = valid;
        calling = AllCallbacks-Lasts Mails s.session.store store lasts v.calling;
        fresh = λ i h. none-Lasts (s.session.store i) (store i) (v.fresh i h) (lasts i);
      } in
      let kept : Keeps s s' = (sound, λ i k c h. Held-Lasts b i k c s s' (lasts i) h) in
      let mailing = deliver-All Mails calls s.session.registry s.session.store f v.calling in
      let mine =
        deliver-All (Subscribed b s) calls s.session.registry s.session.store f
          (λ i p here. (i, p.kind, (p, here, refl, refl))) in
      rw (e, system_round)
        (rw f (elim (call_all-cases (Subscribed b s) mails 0 fired mailing mine) [
          | inl (all, sent) ↦ rw all (kept, sent, mine)
          | inr (n, mail, one, lost, its) ↦ rw one (lost, its)
        ]))

  step-Keeps :
      {s s' : System b W} {fired : List (Option Mail)}
      → Step b logs triggers s fired s'
      → IsSound b s
      → Keeps s s'
  step-Keeps (polled s s' mails r fired e) v =
      let taken : RoundKeeps s mails (completed s' fired) =
        subst (RoundKeeps s mails) e (round-Keeps mails r s v) in
      taken.0
  step-Keeps (subscribed s fs answer session e) v =
      elim (trigger_choose-cases triggers fs s.session e) [
        | inl same ↦ subst (λ x. Keeps s (with_session s x)) same (v, λ i k c h. h)
        | inr (k, new) ↦
            subst (λ x. Keeps s (with_session s x)) new
              (saved-IsSound b k s v, λ i k' c h. saved-Held b k s i k' c v h)
      ]
  step-Keeps (choice_threw s fs e) v = (v, λ i k c h. h)
  step-Keeps (email_set s fs answer session e) v =
      let (next, registry, store) = set_email-engine fs s.session e in
      let at : (i : ℕ) → session.store i ≡ s.session.store i = λ i. ap (λ f. f i) (sym store) in
      (
        record {
          safe = v.safe;
          valid = subst AllValid store v.valid;
          calling = subst (AllCallbacks Mails) store v.calling;
          fresh = λ i h. at i ∙ v.fresh i (omega (arith, next, h));
        },
        λ i k c h. (h.0, at i ∙ h.1, h.2, h.3),
      )
  step-Keeps (email_threw s fs e) v = (v, λ i k c h. h)
  step-Keeps (logs_shown s fs answer e) v = (v, λ i k c h. h)
  step-Keeps (page_shown s) v = (v, λ i k c h. h)

  Run-Keeps : {s s' : System b W} → Run b logs triggers s s' → IsSound b s → Keeps s s'
  Run-Keeps (begun s) v = (v, λ i k c h. h)
  Run-Keeps (went_on s1 s2 s3 fired run step) v =
      let first = Run-Keeps run v in
      let last = step-Keeps step first.0 in (last.0, λ i k c h. last.1 i k c (first.1 i k c h))

  started-IsSound :
      all_measurable (initialize_triggers triggers) ≡ true → IsSound b (started b W logs triggers)
  unfolding started
  started-IsSound units = record {
    safe = new_manager-IsSafe b laws logs triggers units;
    valid = λ i p e. cc;
    calling = λ i p e. cc;
    fresh = λ i h. refl;
  }

  -- Under the same condition, a predicate that is there at one time after the start is there at all
  -- later times, with its kind and with the mail that it sends, whatever rounds and requests happen.
  pub Run-Held :
      (s s' : System b W) (i : ℕ) (k : Kind) (c : Option Mail)
      → all_measurable (initialize_triggers triggers) ≡ true
      → Run b logs triggers (started b W logs triggers) s
      → Run b logs triggers s s'
      → Held b i k c s
      → Held b i k c s'
  Run-Held s s' i k c units before later held =
      (Run-Keeps later (Run-Keeps before (started-IsSound units)).0).1 i k c held
