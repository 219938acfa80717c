-- ===== src/Tests/EngineCases.antt =====
-- tests_src/predicate_engine/predicateEngineTests.cpp: its mocks and its cases, run on the model with
-- whole numbers in place of `double`. What a case counts is the number of calls of the callback.
use zpr_res_monitor.Prelude.{
  ℕ, ◌≡◌, refl, Option, none, some, List, [], Text, codes, length, get_elem?, replicate,
}
use zpr_res_monitor.Config.Types.{TriggerType}
use zpr_res_monitor.State.Cpu.{cpu_state}
use zpr_res_monitor.State.Ram.{ram_state}
use zpr_res_monitor.State.Hdd.{hdd_state}
use zpr_res_monitor.Lexer.State.{Lexer}
use zpr_res_monitor.Lexer.Scan.{Outcome, run, done, failed, out_of_fuel}
use zpr_res_monitor.Sampling.Buffer.{list_buffer}
use zpr_res_monitor.Sampling.Manager.{Reading, new_manager}
use zpr_res_monitor.Predicate.{Kind, or_and, both, element, new_predicate}
use zpr_res_monitor.Engine.{put, add_predicate}
use zpr_res_monitor.Monitor.{run_rounds}
use zpr_res_monitor.Tests.Numbers.{whole}
use zpr_res_monitor.Tests.{new_lexer}

-- `ResProviderMock`; the times play no part.
abbrev mock_reading : Reading ℕ
mock_reading = record {
  cpu_reading = (0, cpu_state 85 10);
  ram_reading = (0, ram_state 1000 500 100);
  hdd_reading = (0, hdd_state 100 100 2000 2000);
}

-- `SamplerManagerMock`: the poller stops itself after `SAMPLES_NUMBER` samples.
abbrev mock_rounds : List (Reading ℕ)
mock_rounds = replicate 10 mock_reading

-- Every case has this text.
abbrev conf : Text
conf =
    codes
      "\n    trigger cpu over 80% last for 8s\n    trigger memory over 200MB last for 6s\n    trigger disk under 10MB/s last for 2s\n    trigger memory over 75% last for 10s\n    trigger disk over 9mb/s last for 1m2s\n\n    log cpu for {3h} resolution {7s}\n    log memory for {12h} resolution {1h}\n    log disk for 3h resolution 4s\n"

-- The rest of a case, behind the parser: the predicate, the engine and the ten samples.
unfoldable count_fired : Kind → Lexer → Option ℕ
unfolding new_predicate put add_predicate new_manager run_rounds
count_fired k s =
    let predicate = new_predicate tt k in
    elim (run_rounds list_buffer mock_rounds (record {
      manager = new_manager list_buffer ℕ s.log_types s.trigger_types;
      registry = add_predicate 0 predicate [];
      store = put 0 predicate (λ i. none);
    })) [ none ↦ none | some (s', fired) ↦ some (length fired) ]

unfoldable parsed : (Lexer → Option ℕ) → Option ℕ
unfolding run
parsed f = elim (run conf new_lexer) [ done s ↦ f s | failed e ↦ none | out_of_fuel ↦ none ]

-- `parser.getTriggerTypes()[i]`.
abbrev with_trigger : ℕ → (TriggerType → Lexer → Option ℕ) → Lexer → Option ℕ
with_trigger i f s = elim (get_elem? s.trigger_types i) [ none ↦ none | some t ↦ f t s ]

unfoldable predicate_1or2and3_both_or_active : Option ℕ
unfolding parsed count_fired
predicate_1or2and3_both_or_active =
    parsed (with_trigger 0 λ a. with_trigger 1 λ b. with_trigger 2 λ c. count_fired (or_and a b c))

unfoldable predicate_1or2and3_one_or_active : Option ℕ
unfolding parsed count_fired
predicate_1or2and3_one_or_active =
    parsed (with_trigger 0 λ a. with_trigger 3 λ b. with_trigger 2 λ c. count_fired (or_and a b c))

unfoldable predicate_1or2and3_none_or_active : Option ℕ
unfolding parsed count_fired
predicate_1or2and3_none_or_active =
    parsed (with_trigger 4 λ a. with_trigger 3 λ b. with_trigger 2 λ c. count_fired (or_and a b c))

unfoldable predicate_1and2_both_active : Option ℕ
unfolding parsed count_fired
predicate_1and2_both_active =
    parsed (with_trigger 0 λ a. with_trigger 1 λ b. count_fired (both a b))

unfoldable predicate_1and2_one_active : Option ℕ
unfolding parsed count_fired
predicate_1and2_one_active = parsed (with_trigger 0 λ a. with_trigger 3 λ b. count_fired (both a b))

unfoldable predicate_1and2_none_active : Option ℕ
unfolding parsed count_fired
predicate_1and2_none_active =
    parsed (with_trigger 4 λ a. with_trigger 3 λ b. count_fired (both a b))

unfoldable predicate_1operator_active : Option ℕ
unfolding parsed count_fired
predicate_1operator_active = parsed (with_trigger 0 λ a. count_fired (element a))

unfoldable predicate_1operator_not_active : Option ℕ
unfolding parsed count_fired
predicate_1operator_not_active = parsed (with_trigger 3 λ a. count_fired (element a))

predicate_1or2and3_both_or_active_fires : predicate_1or2and3_both_or_active ≡ some 2
unfolding predicate_1or2and3_both_or_active zpr_res_monitor.Lexer.Scan.scan_step
predicate_1or2and3_both_or_active_fires = refl

predicate_1or2and3_one_or_active_fires : predicate_1or2and3_one_or_active ≡ some 3
unfolding predicate_1or2and3_one_or_active zpr_res_monitor.Lexer.Scan.scan_step
predicate_1or2and3_one_or_active_fires = refl

predicate_1or2and3_none_or_active_fires : predicate_1or2and3_none_or_active ≡ some 0
unfolding predicate_1or2and3_none_or_active zpr_res_monitor.Lexer.Scan.scan_step
predicate_1or2and3_none_or_active_fires = refl

predicate_1and2_both_active_fires : predicate_1and2_both_active ≡ some 1
unfolding predicate_1and2_both_active zpr_res_monitor.Lexer.Scan.scan_step
predicate_1and2_both_active_fires = refl

predicate_1and2_one_active_fires : predicate_1and2_one_active ≡ some 0
unfolding predicate_1and2_one_active zpr_res_monitor.Lexer.Scan.scan_step
predicate_1and2_one_active_fires = refl

predicate_1and2_none_active_fires : predicate_1and2_none_active ≡ some 0
unfolding predicate_1and2_none_active zpr_res_monitor.Lexer.Scan.scan_step
predicate_1and2_none_active_fires = refl

predicate_1operator_active_fires : predicate_1operator_active ≡ some 1
unfolding predicate_1operator_active zpr_res_monitor.Lexer.Scan.scan_step
predicate_1operator_active_fires = refl

predicate_1operator_not_active_fires : predicate_1operator_not_active ≡ some 0
unfolding predicate_1operator_not_active zpr_res_monitor.Lexer.Scan.scan_step
predicate_1operator_not_active_fires = refl
