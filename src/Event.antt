-- ===== src/Event.antt =====
-- Inform events, netcwmp_xo/libcwmp/src/event.c and the types of include/cwmp/event.h: the list of
-- events that wait for the next Inform, and the record that survives a reboot in a file. The bodies
-- run under the event mutex, so each call is one step.
pub mod Inform
pub mod Flag
pub mod Flags
pub mod Slots
pub mod Clear
pub mod Boot
pub mod Tests
use Prim.Native.Nat.{bit_and, bit_or}
use Prim.Native.String.{String}
use netcwmp_xo.Base.{
  ℕ, zero, suc, ◌+◌, Bool, true, false, not, ◌||◌, Option, none, some, List, [], ◌∷◌, leb, ◌==◌,
  if◌then◌else◌, set, take, Rc, cwmp_ok, cwmp_error,
}
use netcwmp_xo.Base.Int.{ℤ, pos, negsuc, is_negative, is_positive, at_least}

-- `inform_event_table[event].code`
unfoldable pub inform_code : ℕ → String
inform_code e =
    if e == 0
    then "0 BOOTSTRAP"
    else if e == 1
    then "1 BOOT"
    else if e == 2
    then "2 PERIODIC"
    else if e == 3
    then "3 SCHEDULED"
    else if e == 4
    then "4 VALUE CHANGE"
    else if e == 5
    then "5 KICKED"
    else if e == 6
    then "6 CONNECTION REQUEST"
    else if e == 7
    then "7 TRANSFER COMPLETE"
    else if e == 8
    then "8 DIAGNOSTICS COMPLETE"
    else if e == 9
    then "9 REQUEST DOWNLOAD"
    else if e == 10
    then "10 AUTONOMOUS TRANSFER COMPLETE"
    else if e == 11
    then "M Reboot"
    else if e == 12
    then "M ScheduleInform"
    else if e == 13
    then "M Download"
    else if e == 14
    then "M Upload"
    else if e == 15
    then "M X_0_AccountChanged"
    else if e == 16
    then "M 16"
    else if e == 17
    then "M 17"
    else ""

-- `COMMAND_KEY_LEN`
abbrev pub command_key_len : ℕ
command_key_len = 32

-- The characters of a C string, without the terminating NUL.
abbrev pub Bytes : Type 0
Bytes = List ℕ

-- `event_code_t`; times are numbers of seconds.
pub record EventCode : Type 0 where
  pub event : ℕ
  pub code : Option String
  pub command_key : Bytes
  pub policy : ℕ
  pub have_key : ℕ
  pub ref : ℤ
  pub fault_code : ℤ
  pub start : ℕ
  pub end : ℕ

-- A zeroed `event_code_t`.
abbrev pub zeroed : EventCode
zeroed = record {
  event = 0;
  code = none;
  command_key = [];
  policy = 0;
  have_key = 0;
  ref = pos 0;
  fault_code = pos 0;
  start = 0;
  end = 0;
}

-- `event_list_t`; its pointers lead to distinct slots, so it holds the slots themselves.
pub record EventList : Type 0 where
  pub events : List EventCode
  pub count : ℕ
  pub size : ℕ

-- `event_global_t`
pub record EventGlobal : Type 0 where
  pub event_flag : ℕ
  pub event_key : Bytes
  pub fault_code : ℤ
  pub start : ℕ
  pub end : ℕ

abbrev pub zeroed_global : EventGlobal
zeroed_global = record { event_flag = 0; event_key = []; fault_code = pos 0; start = 0; end = 0 }

-- `flag & bit` as a condition
unfoldable pub has_flag : ℕ → ℕ → Bool
has_flag flag bit = not (bit_and flag bit == 0)

-- The part of `cwmp_t` that event.c works on. `file` is what the event file holds, if it is there.
pub record EventState : Type 0 where
  pub el : EventList
  pub global : EventGlobal
  pub file : Option EventGlobal

unfoldable pub zeros : ℕ → List EventCode
zeros zero = []
zeros (suc n) = zeroed ∷ zeros n

-- `cwmp_event_list_create` and `cwmp_event_list_init`: the pool hands out zeroed memory.
unfoldable pub list_create : ℕ → EventList
unfolding zeros
list_create size = record { events = zeros size; count = 0; size = size }

-- `cwmp_event_file_save`, where the file can be written if `writable`
unfoldable pub file_save : Bool → EventState → Rc × EventState
file_save writable s =
    if writable then (cwmp_ok, record s { file = some s.global }) else (cwmp_error, s)

-- The loop of `cwmp_event_set_value`: the first of `count` slots that holds the event, else `count`.
unfoldable pub find_slot : ℕ → List EventCode → ℕ → ℕ
find_slot zero es e = zero
find_slot (suc n) [] e = suc n
find_slot (suc n) (ec ∷ es) e = if ec.event == e then zero else suc (find_slot n es e)

-- `TRstrncpy` into the zeroed key
unfoldable pub copy_key : Option Bytes → Bytes
copy_key none = []
copy_key (some key) = take command_key_len key

unfoldable pub filled : ℕ → ℤ → Option Bytes → ℤ → ℕ → ℕ → EventCode
unfolding copy_key
filled e value key fault start end = record {
  event = e;
  code = some (inform_code e);
  command_key = copy_key key;
  policy = 0;
  have_key = 0;
  ref = value;
  fault_code = fault;
  start = start;
  end = end;
}

-- `cwmp_event_set_value`
unfoldable pub set_value : ℤ → ℤ → Option Bytes → ℤ → ℕ → ℕ → EventList → Rc × EventList
set_value (negsuc e) value key fault start end el = (cwmp_error, el)
set_value (pos e) value key fault start end el =
    if leb Inform.max e
    then (cwmp_error, el)
    else if leb el.size el.count
    then (cwmp_error, el)
    else (
      cwmp_ok,
      record el {
        events =
            set el.events (find_slot el.count el.events e) (filled e value key fault start end);
        count = el.count + 1;
      },
    )

-- The `switch` of `cwmp_event_clear_active` on the event of a slot with a positive `ref`
unfoldable pub note_sent : Bool → EventCode → EventState → EventState
unfolding file_save
note_sent writable ec s =
    if ec.event == Inform.bootstrap || ec.event == Inform.mreboot
    then (file_save writable (record s {
      global = record (s.global) { event_flag = bit_or s.global.event_flag Flag.acs };
    })).1
    else if ec.event == Inform.transfercomplete
    then (file_save writable (record s {
      global = record {
        event_flag = bit_or s.global.event_flag Flag.transfercomplete;
        event_key = ec.command_key;
        fault_code = ec.fault_code;
        start = ec.start;
        end = ec.end;
      };
    })).1
    else s

-- The loop of `cwmp_event_clear_active` over the first `count` slots
unfoldable pub clear_slots : Bool → ℕ → List EventCode → EventState → List EventCode × EventState
unfolding note_sent
clear_slots writable zero es s = (es, s)
clear_slots writable (suc n) [] s = ([], s)
clear_slots writable (suc n) (ec ∷ es) s =
    let (es', s') =
      clear_slots writable n es (if is_positive ec.ref then note_sent writable ec s else s) in
    ((if is_positive ec.ref then record ec { ref = pos 0 } else ec) ∷ es', s')

-- `cwmp_event_clear_active`
unfoldable pub clear_active : Bool → EventState → EventState
unfolding clear_slots
clear_active writable s =
    let (es, s') = clear_slots writable s.el.count s.el.events s in
    record s' { el = record (s.el) { events = es; count = 0 } }

-- `cwmp_event_global_init`: a file that is not there leaves the record zeroed.
unfoldable pub global_init : Option EventGlobal → EventGlobal
global_init none = zeroed_global
global_init (some g) = g

-- A call of `cwmp_event_set_value` whose result is not looked at
unfoldable pub raise : ℕ → Option Bytes → ℤ → ℕ → ℕ → EventState → EventState
unfolding set_value
raise e key fault start end s = record s {
  el = (set_value (pos e) (pos 1) key fault start end s.el).1;
}

abbrev pub raise_plain : ℕ → EventState → EventState
raise_plain e = raise e none (pos 0) 0 0

-- The first part of `cwmp_event_init`: why the device has started
unfoldable pub raise_boot : EventState → EventState
unfolding raise has_flag
raise_boot s =
    if s.global.event_flag == 0 || has_flag s.global.event_flag Flag.bootstrap
    then raise_plain Inform.bootstrap
        (record s { global = record (s.global) { event_flag = Flag.bootstrap } })
    else if has_flag s.global.event_flag Flag.acs
    then raise_plain Inform.mreboot (raise_plain Inform.boot s)
    else raise_plain Inform.boot s

-- `cwmp_event_init`
unfoldable pub init : Option EventGlobal → EventState
unfolding list_create global_init raise_boot raise has_flag
init file =
    let s =
      raise_boot (record { el = list_create Inform.max; global = global_init file; file = file }) in
    if has_flag s.global.event_flag Flag.transfercomplete
    then raise Inform.transfercomplete (some s.global.event_key) s.global.fault_code s.global.start
        s.global.end (raise_plain Inform.mdownload s)
    else s
