-- ===== src/Flex/Tokens.antt =====
-- The match that the scanner finds while it fills its buffer is the one in the whole text.
use zpr_res_monitor.Prelude.{
  ℕ, suc, ◌+◌, ◌≤◌, ◌<◌, ◌==◌, ◌≡◌, refl, sym, ◌∙◌, ap, false, none, some, inl, inr, [], ◌∷◌, ◌++◌,
  Text, All, length, take, drop, leb, arith, subst, All-append,
}
use mathlib.Core.List.{append_assoc, append-nil}
use zpr_res_monitor.Lexer.State.{Condition}
use zpr_res_monitor.Lexer.Rules.{Action}
use zpr_res_monitor.Flex.Cases.{case_of}
use zpr_res_monitor.Flex.Machine.{yy_start, Stop, yy_match, yy_find_action, flex_match}
use zpr_res_monitor.Flex.Buffer.{
  BufferState, token, match_last, match_fresh, token_of, at_input_end, next_token,
}
use zpr_res_monitor.Flex.Classes.{IsByte}
use zpr_res_monitor.Flex.Verdicts.{of_case, resolve, find-lem}
use zpr_res_monitor.Flex.Simulation.{resolve-flex_match, yy_match-longest, start-IsState}
use zpr_res_monitor.Flex.Choice.{longest}
use zpr_res_monitor.Flex.Filling.{
  Within, Within-le, Leaves, Passes, Leaves-or_Passes, nul-nul, found-buffer_end,
}
use zpr_res_monitor.Flex.Named.{Named, Named-from, find_action-le, take-append, drop-append}

-- A match found with the characters so far, as one in the whole text.
pub record Taken (k : Condition) (matched fresh input : Text) (a : Action) (n : ℕ) : Type 0 where
  pub act : ℕ
  pub named : case_of act ≡ some a
  pub left : BufferState
  pub is_token :
      next_token k matched fresh input
      ≡ some (token act (take n ((matched ++ fresh) ++ input)) left)
  pub left_over : left.chars ++ left.input ≡ drop n ((matched ++ fresh) ++ input)

token-found :
    (k : Condition) (matched fresh input : Text) {act n : ℕ}
    → match_fresh k matched fresh ≡ some (act, n)
    → (act == 71) ≡ false
    → next_token k matched fresh input ≡ token_of (matched ++ fresh) input (some (act, n))
unfolding next_token
token-found k matched fresh [] e ne = rw (e, next_token) (rw (ne, next_token) refl)
token-found k matched fresh (c ∷ cs) e ne = rw (e, next_token) (rw (ne, next_token) refl)

-- The characters that a buffer holds are matched from the start.
match_fresh-whole :
    (k : Condition) (matched fresh : Text) {stop : Stop}
    → Passes (yy_start k) none 0 matched
    → yy_match (yy_start k) none 0 ((matched ++ fresh) ++ (0 ∷ 0 ∷ [])) ≡ some stop
    → match_fresh k matched fresh ≡ yy_find_action stop
unfolding match_fresh
match_fresh-whole k matched fresh {stop} p e =
    let nuls : Text = 0 ∷ 0 ∷ [] in
    let there : 0 + length matched ≡ length matched = omega arith in
    let same : yy_match p.state p.state_last (length matched) (fresh ++ nuls) ≡ some stop =
      ap (λ m. yy_match p.state p.state_last m (fresh ++ nuls)) (sym there)
      ∙ sym (p.goes_on (fresh ++ nuls))
      ∙ ap (yy_match (yy_start k) none 0) (sym (append_assoc matched fresh nuls))
      ∙ e in
    rw (p.previous, match_fresh) (rw (same, match_fresh) refl)

found-Taken :
    (k : Condition) (matched fresh input : Text) (a : Action) (n : ℕ) (stop : Stop)
    → match_fresh k matched fresh ≡ yy_find_action stop
    → of_case (yy_find_action stop) ≡ some (a, n)
    → stop.position ≤ length (matched ++ fresh)
    → Within (length (matched ++ fresh)) stop.last
    → Taken k matched fresh input a n
found-Taken k matched fresh input a n stop e found h w =
    let chars : Text = matched ++ fresh in
    let at : Named (yy_find_action stop) a n = Named-from (yy_find_action stop) a n found in
    let bound : n ≤ length chars = find_action-le stop (length chars) at.act n h w at.is_found in
    record {
      act = at.act;
      named = at.named;
      left = record { chars = drop n chars; input = input };
      is_token =
          token-found k matched fresh input (e ∙ at.is_found) at.not_end
          ∙ ap (λ t. some (token at.act t (record { chars = drop n chars; input = input })))
              (sym (take-append n chars input bound));
      left_over = sym (drop-append n chars input bound);
    }

token-more :
    (k : Condition) (matched fresh : Text) (c : ℕ) (cs : Text) {n : ℕ}
    → match_fresh k matched fresh ≡ some (71, suc n)
    → length (matched ++ fresh) ≤ n
    → next_token k matched fresh (c ∷ cs) ≡ next_token k (matched ++ fresh) (c ∷ []) cs
unfolding next_token
token-more k matched fresh c cs {n} e h =
    let beyond : leb (suc n) (length (matched ++ fresh)) ≡ false = ground (arith, h) in
    rw (e, next_token) (rw (beyond, next_token) refl)

pub token-last :
    (k : Condition) (matched fresh : Text) {n : ℕ}
    → match_fresh k matched fresh ≡ some (71, suc n)
    → length (matched ++ fresh) ≤ n
    → next_token k matched fresh [] ≡ at_input_end k (matched ++ fresh)
unfolding next_token
token-last k matched fresh {n} e h =
    let beyond : leb (suc n) (length (matched ++ fresh)) ≡ false = ground (arith, h) in
    rw (e, next_token) (rw (beyond, next_token) refl)

at_input_end-some :
    (k : Condition) (chars : Text)
    → 0 < length chars
    → at_input_end k chars ≡ token_of chars [] (match_last k chars)
unfolding at_input_end
at_input_end-some k [] h = absurd (omega (arith, h))
at_input_end-some k (c ∷ cs) h = refl

-- At the end of the input, the last match is the one that the loop finds at the end of a text.
match_last-Named :
    (k : Condition) (chars : Text) (a : Action) (n : ℕ)
    → Passes (yy_start k) none 0 chars
    → flex_match k chars ≡ some (a, n)
    → Named (match_last k chars) a n × (n ≤ length chars)
unfolding match_last longest
match_last-Named k chars a n p e =
    let stop : Stop = record { current = p.state; last = p.state_last; position = length chars } in
    let same : match_last k chars ≡ yy_find_action stop = rw (p.previous, match_last) refl in
    let there : 0 + length chars ≡ length chars = omega arith in
    let loop : yy_match (yy_start k) none 0 chars
        ≡ yy_match p.state p.state_last (length chars) [] =
      ap (yy_match (yy_start k) none 0) (sym (append-nil chars))
      ∙ p.goes_on []
      ∙ ap (λ m. yy_match p.state p.state_last m []) there in
    let found : of_case (yy_find_action stop) ≡ some (a, n) =
      find-lem p.state (length chars) p.state_last p.state-IsState
      ∙ sym (yy_match-longest p.state (length chars) p.state_last [] p.state-IsState tt)
      ∙ ap resolve (sym loop)
      ∙ sym (resolve-flex_match k chars)
      ∙ e in
    let at : Named (yy_find_action stop) a n = Named-from (yy_find_action stop) a n found in
    let w : Within (length chars) p.state_last =
      Within-le p.state_last (omega arith) p.state_last-Within in
    (
      record {
        act = at.act;
        is_found = same ∙ at.is_found;
        named = at.named;
        not_end = at.not_end;
      },
      find_action-le stop (length chars) at.act n (omega arith) w at.is_found,
    )

Leaves-Taken :
    (k : Condition) (matched fresh input : Text) (a : Action) (n : ℕ)
    → Passes (yy_start k) none 0 matched
    → Leaves (yy_start k) none 0 (matched ++ fresh)
    → flex_match k ((matched ++ fresh) ++ input) ≡ some (a, n)
    → Taken k matched fresh input a n
Leaves-Taken k matched fresh input a n p l e =
    let chars : Text = matched ++ fresh in
    found-Taken k matched fresh input a n l.stop
      (match_fresh-whole k matched fresh p (l.at-stop (0 ∷ 0 ∷ [])))
      (sym (ap resolve (l.at-stop input)) ∙ sym (resolve-flex_match k (chars ++ input)) ∙ e)
      (omega (arith, l.stop-le)) (Within-le l.stop.last (omega arith) l.last-Within)

-- A loop that comes to the end of the buffer takes the case of the end of the buffer.
pub match_fresh-end :
    (k : Condition) (matched fresh : Text)
    → Passes (yy_start k) none 0 matched
    → Passes (yy_start k) none 0 (matched ++ fresh)
    → match_fresh k matched fresh ≡ some (71, suc (0 + length (matched ++ fresh)))
match_fresh-end k matched fresh p q =
    let n : ℕ = 0 + length (matched ++ fresh) in
    match_fresh-whole k matched fresh p
      (q.goes_on (0 ∷ 0 ∷ []) ∙ nul-nul q.state q.state_last n q.state-IsState)
    ∙ found-buffer_end n

last-Taken :
    (k : Condition) (matched fresh : Text) (a : Action) (n : ℕ)
    → Passes (yy_start k) none 0 matched
    → Passes (yy_start k) none 0 (matched ++ fresh)
    → 0 < length ((matched ++ fresh) ++ [])
    → flex_match k ((matched ++ fresh) ++ []) ≡ some (a, n)
    → Taken k matched fresh [] a n
last-Taken k matched fresh a n p q h e =
    let chars : Text = matched ++ fresh in
    let whole : chars ++ [] ≡ chars = append-nil chars in
    let (at, bound) = match_last-Named k chars a n q (ap (flex_match k) (sym whole) ∙ e) in
    let left : BufferState = record { chars = drop n chars; input = [] } in
    record {
      act = at.act;
      named = at.named;
      left = left;
      is_token =
          token-last k matched fresh (match_fresh-end k matched fresh p q) (omega arith)
          ∙ at_input_end-some k chars (subst (λ t. 0 < length t) whole h)
          ∙ ap (token_of chars []) at.is_found
          ∙ ap (λ t. some (token at.act t left)) (sym (take-append n chars [] bound));
      left_over = sym (drop-append n chars [] bound);
    }

-- Let the characters that are matched take the loop to their end. Then the next match, however many
-- characters are read for it, is the one in the whole text, and what is left in the buffer and in the
-- stream is the rest of the text.
pub next_token-flex_match :
    (k : Condition) (matched fresh input : Text) (a : Action) (n : ℕ)
    → Passes (yy_start k) none 0 matched
    → All IsByte (matched ++ fresh)
    → All IsByte input
    → 0 < length ((matched ++ fresh) ++ input)
    → flex_match k ((matched ++ fresh) ++ input) ≡ some (a, n)
    → Taken k matched fresh input a n
next_token-flex_match k matched fresh [] a n p all rest h e =
    elim (Leaves-or_Passes (yy_start k) none 0 (matched ++ fresh) (start-IsState k) tt all) [
      | inl l ↦ Leaves-Taken k matched fresh [] a n p l e
      | inr q ↦ last-Taken k matched fresh a n p q h e
    ]
next_token-flex_match k matched fresh (c ∷ cs) a n p all (byte, rest) h e =
    let chars : Text = matched ++ fresh in
    elim (Leaves-or_Passes (yy_start k) none 0 chars (start-IsState k) tt all) [
      | inl l ↦ Leaves-Taken k matched fresh (c ∷ cs) a n p l e
      | inr q ↦
          let same : (chars ++ (c ∷ [])) ++ cs ≡ chars ++ (c ∷ cs) =
            append_assoc chars (c ∷ []) cs in
          let r : Taken k chars (c ∷ []) cs a n =
            next_token-flex_match k chars (c ∷ []) cs a n q
              (All-append IsByte chars (c ∷ []) all (byte, tt)) rest
              (subst (λ t. 0 < length t) (sym same) h) (ap (flex_match k) same ∙ e) in
          record {
            act = r.act;
            named = r.named;
            left = r.left;
            is_token =
                token-more k matched fresh c cs (match_fresh-end k matched fresh p q) (omega arith)
                ∙ r.is_token
                ∙ ap (λ t. some (token r.act (take n t) r.left)) same;
            left_over = r.left_over ∙ ap (drop n) same;
          }
    ]
