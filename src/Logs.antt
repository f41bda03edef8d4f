-- ===== src/Logs.antt =====
-- The logs of an application: the events of backend/app/logging/models.py, and the children for
-- the readers of backend/app/logging/adapters.py, the service of backend/app/logging/service.py
-- and the connection of backend/app/api/log_websocket.py.
pub mod Lines
pub mod Messages
pub mod Adapters
pub mod Service
pub mod Query
pub mod Connection
use machine_deck.Base.{
  Equality, ltb, leb, if◌then◌else◌, ltb→lt, leb→le, Bool-cases, Option-cases, nat_beq_iff, nat_eq,
  string_eq, ◌==◌, option_beq, option_beq_iff, is_none, is_some, or_else, length, take, drop, any,
  all, filter, find?, All, length-append, length-take, length-drop, take-append-drop, All-append,
  All-filter, length-filter, find?-some, contains, Outcome, ok, raised, is_ok, Exec, pure, raise,
  lift, gets, modify, raise_if, continue, ◌>>=◌, ◌>>◌, handle_errors, continue-keeps,
  continue-raised, continue-eq-ok, Returns, continue-Returns, ℕ, zero, suc, ◌+◌, ◌-◌, ◌*◌, ◌/◌, ◌%◌,
  ◌^◌, ◌≤◌, ◌<◌, min, String, ◌≡◌, refl, sym, ap, ◌∙◌, ◌≢◌, ◌↔◌, ◌⊎◌, inl, inr, Bool, true, false,
  not, ◌&&◌, ◌||◌, Option, none, some, List, [], ◌∷◌, ◌++◌, map, arith, eq_iff, eq_refl,
}
use machine_deck.Text.{
  Text, codes, text_beq, text_beq_iff, text_eq, is_space, is_digit, lower_char, lower, lstrip,
  rstrip, strip_by, strip, strip_quotes, partition, rpartition, split_parts, split, join_rest, join,
  starts_with, all_digits, join-split,
}
use machine_deck.Text.Encoding.{
  Bytes, replace, ends_with, utf8_char, encode, is_line_break, splitlines, text_leb, item_leb,
  insert_item, sorted,
}

abbrev pub max_log_line_bytes : ℕ
max_log_line_bytes = 65536

pub data LogSource : Type 0 where
  from_journal from_docker : LogSource

pub data LogStream : Type 0 where
  out_stream error_stream unknown_stream : LogStream

-- A time is in microseconds; `model_copy(update={"sequence": ...})` sets the sequence.
pub record LogEvent : Type 0 where
  pub application_id : Text
  pub timestamp : ℕ
  pub source : LogSource
  pub stream : LogStream
  pub message : Text
  pub service : Option Text
  pub container_id : Option Text
  pub cursor : Option Text
  pub sequence : Option ℕ
  pub truncated : Bool
  pub original_size : Option ℕ
