-- ===== src/Flex/Filling.antt =====
-- A match that stops for more characters goes on as if they had been there.
use zpr_res_monitor.Prelude.{
  ℕ, zero, suc, ◌+◌, ◌≤◌, ◌==◌, ◌≡◌, refl, ◌∙◌, ap, ◌⊎◌, true, false, Option, none, some, inl, inr,
  [], ◌∷◌, ◌++◌, Text, All, map, length, subst, ltb, arith, Bool-cases,
}
use mathlib.Core.Option.{some-injective}
use zpr_res_monitor.Flex.Verdicts.{note-lem}
use zpr_res_monitor.Flex.Numbers.{entry}
use zpr_res_monitor.Flex.Accepting.{yy_accept, yy_ec}
use zpr_res_monitor.Flex.States.{yy_base}
use zpr_res_monitor.Flex.Machine.{next_of, Stop, note_accepting, yy_match, yy_find_action}
use zpr_res_monitor.Flex.Buffer.{yy_get_previous_state}
use zpr_res_monitor.Flex.Reached.{is_state}
use zpr_res_monitor.Flex.Agreement.{range}
use zpr_res_monitor.Flex.Classes.{IsByte}
use zpr_res_monitor.Flex.Rows.{Stepped, stepped, range-at, is_state-bounds}

-- A noted position is not beyond a bound.
abbrev pub Within : ℕ → Option (ℕ × ℕ) → Type 0
Within n none = Unit
Within n (some (s, position)) = position ≤ n

pub Within-le : {m n : ℕ} (last : Option (ℕ × ℕ)) → m ≤ n → Within m last → Within n last
Within-le none h w = tt
Within-le (some (s, position)) h w = omega (arith, h, w)

-- What the loop notes, by what the table says of the state.
abbrev noting : Option ℕ → ℕ → ℕ → Option (ℕ × ℕ) → Option (Option (ℕ × ℕ))
noting o s n last = elim o [
  | none ↦ none
  | some zero ↦ some last
  | some (suc a) ↦ some (some (s, n))
]

noting-Within :
    (o : Option ℕ) (s n : ℕ) (last : Option (ℕ × ℕ)) {last' : Option (ℕ × ℕ)}
    → noting o s n last ≡ some last'
    → Within n last
    → Within n last'
noting-Within none s n last e w = cc
noting-Within (some zero) s n last e w = subst (Within n) (some-injective _ _ e) w
noting-Within (some (suc a)) s n last e w = subst (Within n) (some-injective _ _ e) (omega arith)

note-Within :
    (s n : ℕ) (last : Option (ℕ × ℕ)) {last' : Option (ℕ × ℕ)}
    → note_accepting s n last ≡ some last'
    → Within n last
    → Within n last'
unfolding note_accepting
note-Within s n last e w = noting-Within (entry yy_accept s) s n last e w

-- One turn of the loop that does not leave.
yy_match-on :
    (s : ℕ) (last : Option (ℕ × ℕ)) (n c : ℕ) (cs : Text) {last' : Option (ℕ × ℕ)} {k t base : ℕ}
    → note_accepting s n last ≡ some last'
    → entry yy_ec c ≡ some k
    → next_of s k ≡ some t
    → entry yy_base t ≡ some base
    → (base == 1150) ≡ false
    → yy_match s last n (c ∷ cs) ≡ yy_match t last' (suc n) cs
unfolding yy_match
yy_match-on s last n c cs e class next row stay =
    rw (e, yy_match)
      (rw (class, yy_match) (rw (next, yy_match) (rw (row, yy_match) (rw (stay, yy_match) refl))))

-- The loop leaves within a text, whatever comes behind it.
pub record Leaves (s : ℕ) (last : Option (ℕ × ℕ)) (n : ℕ) (cs : Text) : Type 0 where
  pub stop : Stop
  pub at-stop : (rest : Text) → yy_match s last n (cs ++ rest) ≡ some stop
  pub stop-le : stop.position ≤ n + length cs
  pub last-Within : Within (n + length cs) stop.last

-- The loop comes to the end of a text, and goes on from there with whatever comes behind it.
pub record Passes (s : ℕ) (last : Option (ℕ × ℕ)) (n : ℕ) (cs : Text) : Type 0 where
  pub state : ℕ
  pub state-IsState : is_state state ≡ true
  pub state_last : Option (ℕ × ℕ)
  pub state_last-Within : Within (n + length cs) state_last
  pub previous : yy_get_previous_state s last n cs ≡ some (state, state_last)
  pub goes_on :
      (rest : Text)
      → yy_match s last n (cs ++ rest) ≡ yy_match state state_last (n + length cs) rest

pub nothing-Passes :
    (s : ℕ) (last : Option (ℕ × ℕ)) (n : ℕ) → is_state s ≡ true → Within n last → Passes s last n []
unfolding yy_get_previous_state
nothing-Passes s last n h w = record {
  state = s;
  state-IsState = h;
  state_last = last;
  state_last-Within = Within-le last (omega arith) w;
  previous = refl;
  goes_on = λ rest. ap (λ m. yy_match s last m rest) (omega arith);
}

pub Leaves-or_Passes :
    (s : ℕ) (last : Option (ℕ × ℕ)) (n : ℕ) (cs : Text)
    → is_state s ≡ true
    → Within n last
    → All IsByte cs
    → Leaves s last n cs ⊎ Passes s last n cs
unfolding yy_match yy_get_previous_state
Leaves-or_Passes s last n [] h w all = inr (nothing-Passes s last n h w)
Leaves-or_Passes s last n (c ∷ cs) h w (byte, all) =
    let (last', e, _) = note-lem s n last h in
    let t : Stepped s c = stepped s c h byte in
    let next : Stepped t.target c = stepped t.target c t.target-IsState byte in
    let w' : Within (suc n) last' = Within-le last' (omega arith) (note-Within s n last e w) in
    let longer : suc n + length cs ≡ n + suc (length cs) = omega arith in
    elim (Bool-cases (next.base == 1150)) [
      | inl leave ↦ inl (record {
        stop = record { current = t.target; last = last'; position = suc n };
        at-stop = λ rest.
            rw (e, yy_match)
              (rw (t.class-at, yy_match)
                (rw (t.target-at, yy_match)
                  (rw (next.base-at, yy_match) (rw (leave, yy_match) refl))));
        stop-le = omega arith;
        last-Within = Within-le last' (omega arith) w';
      })
      | inr stay ↦
          let one : (rest : Text)
              → yy_match s last n (c ∷ (cs ++ rest))
                ≡ yy_match t.target last' (suc n) (cs ++ rest) =
            λ rest.
              yy_match-on s last n c (cs ++ rest) e t.class-at t.target-at next.base-at stay in
          elim (Leaves-or_Passes t.target last' (suc n) cs t.target-IsState w' all) [
            | inl l ↦ inl (record {
              stop = l.stop;
              at-stop = λ rest. one rest ∙ l.at-stop rest;
              stop-le = omega (arith, l.stop-le);
              last-Within = Within-le l.stop.last (omega arith) l.last-Within;
            })
            | inr p ↦ inr (record {
              state = p.state;
              state-IsState = p.state-IsState;
              state_last = p.state_last;
              state_last-Within = Within-le p.state_last (omega arith) p.state_last-Within;
              previous =
                  rw (e, yy_get_previous_state)
                    (rw (t.class-at, yy_get_previous_state)
                      (rw (t.target-at, yy_get_previous_state) p.previous));
              goes_on = λ rest.
                  one rest ∙ p.goes_on rest ∙ ap (λ m. yy_match p.state p.state_last m rest) longer;
            })
          ]
    ]

-- The two NULs take every state to the case of the end of the buffer.
nul_1_22 : map (λ s. next_of s 0) (range 1 22) ≡ map (λ s. some 23) (range 1 22)
unfolding next_of
nul_1_22 = refl

nul_24_315 : map (λ s. next_of s 0) (range 24 292) ≡ map (λ s. some 23) (range 24 292)
unfolding next_of
nul_24_315 = refl

next_of-nul : (s : ℕ) → is_state s ≡ true → next_of s 0 ≡ some 23
next_of-nul s h =
    let (low, high, other) = is_state-bounds s h in
    elim (Bool-cases (ltb s 23)) [
      | inl first ↦
          range-at (λ s. next_of s 0) (λ s. some 23) 1 22 s nul_1_22 low (ground (arith, first))
      | inr later ↦
          range-at (λ s. next_of s 0) (λ s. some 23) 24 292 s nul_24_315
            (ground (arith, later, other)) (omega (arith, high))
    ]

abbrev pub buffer_stop : ℕ → Stop
buffer_stop n = record { current = 315; last = some (23, suc n); position = suc (suc n) }

-- From the state that the first NUL leads to.
second_nul :
    (last : Option (ℕ × ℕ)) (n : ℕ)
    → yy_match 23 last n (0 ∷ [])
      ≡ some (record { current = 315; last = some (23, n); position = suc n })
unfolding yy_match note_accepting next_of
second_nul last n = refl

class-nul : entry yy_ec 0 ≡ some 0
unfolding entry yy_ec
class-nul = refl

base-23 : entry yy_base 23 ≡ some 392
unfolding entry yy_base
base-23 = refl

pub nul-nul :
    (s : ℕ) (last : Option (ℕ × ℕ)) (n : ℕ)
    → is_state s ≡ true
    → yy_match s last n (0 ∷ 0 ∷ []) ≡ some (buffer_stop n)
nul-nul s last n h =
    let (last', e, _) = note-lem s n last h in
    yy_match-on s last n 0 (0 ∷ []) e class-nul (next_of-nul s h) base-23 refl
    ∙ second_nul last' (suc n)

pub found-buffer_end : (n : ℕ) → yy_find_action (buffer_stop n) ≡ some (71, suc n)
unfolding yy_find_action entry yy_accept
found-buffer_end n = refl
