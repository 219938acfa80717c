-- ===== src/Web.antt =====
-- src/main.cpp: the handlers of the requests. The server parses a query; its fields come as a list, in
-- the order in which the source iterates over them. `none` is an exception that leaves the handler.
pub mod Fields
pub mod Page
pub mod Subscription
pub mod Options
pub mod Response
pub mod Browser
pub mod Labels
use zpr_res_monitor.Prelude.{
  ℕ, suc, ◌+◌, ◌^◌, ◌==◌, Bool, true, false, Option, none, some, List, [], ◌∷◌, ◌++◌, Text, codes,
  decimal, ltb, if◌then◌else◌, length, get_elem?,
}
use zpr_res_monitor.Double.{Double}
use zpr_res_monitor.Config.Types.{TriggerType, LogType, cpu, memory, disk}
use zpr_res_monitor.State.Cpu.{CpuState, show_cpu}
use zpr_res_monitor.State.Ram.{RamState, show_ram}
use zpr_res_monitor.State.Hdd.{HddState, show_hdd}
use zpr_res_monitor.Predicate.{Predicate, Kind, or_and, both, element, new_predicate, set_callback}
use zpr_res_monitor.Predicate.Print.{show_kind}
use zpr_res_monitor.Engine.{Registry, Store, put, add_predicate}
use zpr_res_monitor.Provider.Scanning.{scan_integer, flush}
use zpr_res_monitor.Sampling.Buffer.{CircularBuffer}
use zpr_res_monitor.Sampling.Logs.{get_log}
use zpr_res_monitor.Sampling.Manager.{Manager}

abbrev pub Field : Type 0
Field = Text × Text

-- What the loop over the fields writes to the stream: ": " (58 and 32) behind the key, ":" behind the
-- value.
unfoldable pub write_fields : List Field → Text
write_fields [] = []
write_fields ((k, v) ∷ fs) = k ++ (58 ∷ 32 ∷ (v ++ (58 ∷ write_fields fs)))

-- `std::getline` with the delimiter ':' until the stream ends, behind what is read of a segment.
unfoldable pub segments_from : Text → Text → List Text
segments_from segment [] = flush segment []
segments_from segment (c ∷ cs) =
    let rest = segments_from (if c == 58 then [] else segment ++ (c ∷ [])) cs in
    if c == 58 then segment ∷ rest else rest

-- `seglist`.
unfoldable pub seglist : List Field → List Text
unfolding write_fields segments_from
seglist fs = segments_from [] (write_fields fs)

-- `std::stoi`, for the use as an index: a negative number converts to one that no vector has.
unfoldable pub stoi : Text → Option ℕ
stoi cs = elim (scan_integer cs) [
  | none ↦ none
  | some (negative, n, rest) ↦
      if negative
      then (if n == 0 then some 0 else none)
      else if ltb n (2 ^ 31)
      then some n
      else none
]

-- `types.at(std::stoi(seglist.at(i)))`.
unfoldable pub chosen {ℓ} : {A : Type ℓ} → List A → List Text → ℕ → Option A
unfolding stoi
chosen types segs i = elim (get_elem? segs i) [
  | none ↦ none
  | some s ↦ elim (stoi s) [ none ↦ none | some n ↦ get_elem? types n ]
]

-- The operands of the predicate, by the number of fields; `some none` is "Wrong data!".
unfoldable pub chosen_kind : List TriggerType → List Field → Option (Option Kind)
unfolding chosen seglist
chosen_kind types fs =
    let segs = seglist fs in
    if length fs == 3
    then elim (chosen types segs 5) [
      | none ↦ none
      | some a ↦ elim (chosen types segs 3) [
        | none ↦ none
        | some b ↦ elim (chosen types segs 1) [ none ↦ none | some c ↦ some (some (or_and a b c)) ]
      ]
    ]
    else if length fs == 2
    then elim (chosen types segs 3) [
      | none ↦ none
      | some a ↦ elim (chosen types segs 1) [ none ↦ none | some b ↦ some (some (both a b)) ]
    ]
    else if length fs == 1
    then elim (chosen types segs 1) [ none ↦ none | some a ↦ some (some (element a)) ]
    else some none

-- The message that `sendMailFunction` sends: the receiver and the body.
pub record Mail : Type 0 where
  pub receiver : Text
  pub body : Text

unfoldable pub notification : Text → Text → Kind → Mail
unfolding show_kind
notification name email k = record {
  receiver = email;
  body =
      codes "Hello"
      ++ name
      ++ codes ",\nfollowing trigger has been exceeded:\n"
      ++ show_kind k
      ++ codes "\n\nYour ZPRMonitor";
}

-- What the handlers share: `userName`, `userEmail`, and the engine, where a predicate's callback is the
-- mail that it sends, if any. `predicates` keeps each predicate alive; the next identity is free.
pub record Session : Type 0 where
  pub user_name : Text
  pub user_email : Text
  pub next_identity : ℕ
  pub registry : Registry
  pub store : Store (Option Mail)

-- The handler of /trigger_choose. The predicate is made with an empty callback, which is then set.
unfoldable pub trigger_choose : List TriggerType → List Field → Session → Option (Text × Session)
unfolding chosen_kind notification new_predicate set_callback put add_predicate
trigger_choose types fs s = elim (chosen_kind types fs) [
  | none ↦ none
  | some none ↦ some (codes "Wrong data!", s)
  | some (some k) ↦
      let p =
        set_callback (some (notification s.user_name s.user_email k)) (new_predicate none k) in
      some (
        codes "Your subscription has been saved!",
        record s {
          next_identity = suc s.next_identity;
          registry = add_predicate s.next_identity p s.registry;
          store = put s.next_identity p s.store;
        },
      )
]

-- The handler of /set_email, up to the page that it answers; `some (inl ..)` is the early return.
unfoldable pub set_email : List Field → Session → Option (Bool × Session)
unfolding seglist
set_email fs s =
    if length fs == 2
    then elim (get_elem? (seglist fs) 1) [
      | none ↦ none
      | some name ↦ elim (get_elem? (seglist fs) 3) [
        | none ↦ none
        | some email ↦ some (true, record s { user_name = name; user_email = email })
      ]
    ]
    else some (false, s)

-- Each entry of a log on a line.
unfoldable pub show_entries : {S : Type 0} → (S → Text) → List S → Text
show_entries show [] = []
show_entries show (x ∷ xs) = show x ++ codes "\n" ++ show_entries show xs

module _ (b : CircularBuffer) {W : Type 0} ⦃d : Double W⦄ where
  -- The answer of /getlogs.
  unfoldable pub getlogs : List LogType → Manager b W → List Field → Option Text
  unfolding chosen seglist get_log show_entries show_cpu show_ram show_hdd
  getlogs types m fs = elim (chosen types (seglist fs) 1) [
    | none ↦ none
    | some l ↦ elim l.resource [
      | cpu ↦ elim (get_log b (CpuState W) l m.cpu_log) [
        | none ↦ none
        | some x ↦ some (show_entries show_cpu (b.elements (CpuState W) x))
      ]
      | memory ↦ elim (get_log b (RamState W) l m.ram_log) [
        | none ↦ none
        | some x ↦ some (show_entries show_ram (b.elements (RamState W) x))
      ]
      | disk ↦ elim (get_log b (HddState W) l m.hdd_log) [
        | none ↦ none
        | some x ↦ some (show_entries show_hdd (b.elements (HddState W) x))
      ]
    ]
  ]
