-- ===== src/Net/Routing.antt =====
-- NeuronCore/ConnectionTable.h: connections by their 64-bit token, in slots with a generation.
pub mod Slots
pub mod Opening
pub mod Closing
pub mod Invariant
pub mod Generations
pub mod Handles
pub mod Lookup
pub mod Token
mod Examples
use earth_rise_game.Prelude.{
  ℕ, zero, suc, ◌+◌, ◌%◌, ◌^◌, Bool, true, false, not, ◌&&◌, ◌||◌, List, [], ◌∷◌, ◌++◌, Option,
  none, some, ltb, leb, ◌==◌, if◌then◌else◌, get_or, set, length,
}
use earth_rise_game.Prelude.Maps.{lookup, insert, erase}
use earth_rise_game.Net.Codec.{Outcome, value, ◌>>=◌, byte_at, get_bytes}

-- `DATAGRAM_KIND_ENCRYPTED` and `TOKEN_BYTE_OFFSET`.
abbrev pub datagram_kind_encrypted : ℕ
datagram_kind_encrypted = 0x01

abbrev pub token_byte_offset : ℕ
token_byte_offset = 5

-- `PeekConnectionToken`: `none` is `nullopt`. The loop is that of `GetU64`.
pub peek_connection_token : List ℕ → Outcome (Option ℕ)
peek_connection_token [] = value none
peek_connection_token (kind ∷ dg) =
    if not (kind == datagram_kind_encrypted)
    then value none
    else if ltb (length (kind ∷ dg)) (token_byte_offset + 8)
    then value none
    else do token ← get_bytes 64 8 0 (kind ∷ dg) token_byte_offset 0; value (some token)

-- `struct ConnHandle`.
pub record ConnHandle : Type 0 where
  pub index : ℕ
  pub generation : ℕ
  pub valid : Bool

-- `struct Slot`.
pub record Slot : Type 0 where
  pub token : ℕ
  pub generation : ℕ
  pub active : Bool

-- `class ConnectionTable`. The back of the vector `m_free` is the head of `free`.
pub record ConnectionTable : Type 0 where
  pub slots : List Slot
  pub free : List ℕ
  pub by_token : List (ℕ × ℕ)

abbrev pub empty_table : ConnectionTable
empty_table = record { slots = []; free = []; by_token = [] }

abbrev pub no_slot : Slot
no_slot = record { token = 0; generation = 0; active = false }

abbrev pub no_handle : ConnHandle
no_handle = record { index = 0; generation = 0; valid = false }

abbrev pub slot_at : ConnectionTable → ℕ → Slot
slot_at t i = get_or t.slots i no_slot

-- `HandleFor`.
pub handle_for : ConnectionTable → ℕ → ConnHandle
handle_for t idx = record { index = idx; generation = (slot_at t idx).generation; valid = true }

-- The slot that `Open` takes: a freed one, or a new one at the end of the array.
pub take_slot : ConnectionTable → ℕ × ConnectionTable
take_slot t = elim t.free [
  | idx ∷ rest ↦ (idx, record t { free = rest })
  | [] ↦ (length t.slots % 2 ^ 32, record t { slots = t.slots ++ (no_slot ∷ []) })
]

-- The rest of `Open`: the slot is filled, keeps its generation, and is entered in the map.
pub fill_slot : ℕ → ConnectionTable → ℕ → ConnectionTable
fill_slot idx t token = record t {
  slots =
      set t.slots idx
        (record { token = token; generation = (slot_at t idx).generation; active = true });
  by_token = insert token idx t.by_token;
}

-- `Open`.
pub open_connection : ℕ → ConnectionTable → ConnHandle × ConnectionTable
open_connection token t = elim (lookup token t.by_token) [
  | some idx ↦ (handle_for t idx, t)
  | none ↦
      let (idx, t') = take_slot t in let t'' = fill_slot idx t' token in (handle_for t'' idx, t'')
]

-- `Find`.
pub find : ℕ → ConnectionTable → ConnHandle
find token t = elim (lookup token t.by_token) [ none ↦ no_handle | some idx ↦ handle_for t idx ]

-- `Validate`.
pub validate : ConnHandle → ConnectionTable → Bool
validate h t =
    if not h.valid || leb (length t.slots) h.index
    then false
    else (slot_at t h.index).active && (slot_at t h.index).generation == h.generation

-- `Close`. The 32-bit generation wraps.
pub close_connection : ℕ → ConnectionTable → ConnectionTable
close_connection token t = elim (lookup token t.by_token) [
  | none ↦ t
  | some idx ↦ record t {
    slots = set t.slots idx (record {
      token = 0;
      generation = ((slot_at t idx).generation + 1) % 2 ^ 32;
      active = false;
    });
    by_token = erase token t.by_token;
    free = idx ∷ t.free;
  }
]

-- `Lane`.
pub lane : ConnHandle → ℕ → ℕ
lane h lane_count = if lane_count == 0 then 0 else h.index % lane_count

-- `ActiveCount` and `SlotCapacity`.
pub active_count : ConnectionTable → ℕ
active_count t = length t.by_token

pub slot_capacity : ConnectionTable → ℕ
slot_capacity t = length t.slots

-- `Get`: the slot that the pointer refers to, `none` for `nullptr`.
pub get_slot : ConnHandle → ConnectionTable → Option Slot
get_slot h t = if validate h t then some (slot_at t h.index) else none

-- The calls that change a table.
pub data Call : Type 0 where
  opens closes : ℕ → Call

pub step : ConnectionTable → Call → ConnectionTable
step t (opens token) = (open_connection token t).1
step t (closes token) = close_connection token t

pub run : ConnectionTable → List Call → ConnectionTable
run t [] = t
run t (c ∷ cs) = run (step t c) cs
