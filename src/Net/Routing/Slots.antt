-- ===== src/Net/Routing/Slots.antt =====
-- What holds of a connection table between its calls.
use earth_rise_game.Prelude.{
  ℕ, ◌+◌, ◌^◌, ◌≤◌, ◌<◌, ◌≡◌, ◌≢◌, ap, ◌∙◌, sym, true, false, List, [], ◌∷◌, ◌++◌, some, arith,
  get_or, set, length, length-set, length-append, get_or-set_ne, All, get_or-append_left,
}
use earth_rise_game.Prelude.Maps.{lookup, KeysDistinct}
use earth_rise_game.Net.Routing.{ConnectionTable, Slot, empty_table, no_slot, slot_at}

-- A slot index that is free: inside the array, and inactive.
abbrev pub IsFree : List Slot → ℕ → Type 0
IsFree slots i = (i < length slots) × ((get_or slots i no_slot).active ≡ false)

abbrev pub Absent : ℕ → List ℕ → Type 0
Absent i = All (λ j. j ≢ i)

abbrev pub AllDistinct : List ℕ → Type 0
AllDistinct [] = Unit
AllDistinct (i ∷ is) = Absent i is × AllDistinct is

-- Each entry of the map names an active slot that holds its token, the free list names inactive
-- slots, each once, and the two sides make up all slots.
pub record IsTable (t : ConnectionTable) : Type 0 where
  pub keys : KeysDistinct t.by_token
  pub entry :
      (token i : ℕ)
      → lookup token t.by_token ≡ some i
      → (i < length t.slots) × ((slot_at t i).active ≡ true) × ((slot_at t i).token ≡ token)
  pub free_slots : All (IsFree t.slots) t.free
  pub free_once : AllDistinct t.free
  pub balance : length t.by_token + length t.free ≡ length t.slots
  pub small : length t.slots ≤ 2 ^ 32

pub empty_table-IsTable : IsTable empty_table
empty_table-IsTable = record {
  keys = tt;
  entry = λ token i e. unfold lookup in absurd (ground arith);
  free_slots = tt;
  free_once = tt;
  balance = omega arith;
  small = omega arith;
}

-- A write to one slot leaves the indices free that do not name it.
pub set-IsFree :
    (slots : List Slot) (i : ℕ) (s : Slot) (free : List ℕ)
    → Absent i free
    → All (IsFree slots) free
    → All (IsFree (set slots i s)) free
set-IsFree slots i s [] a f = tt
set-IsFree slots i s (j ∷ free) a f = (
  (
    omega (arith, length-set slots i s, f.0.0),
    ap (λ (x : Slot). x.active) (get_or-set_ne slots i j s no_slot (λ e. a.0 (sym e))) ∙ f.0.1,
  ),
  set-IsFree slots i s free a.1 f.1,
)

pub append-IsFree :
    (slots : List Slot) (s : Slot) (free : List ℕ)
    → All (IsFree slots) free
    → All (IsFree (slots ++ (s ∷ []))) free
append-IsFree slots s [] f = tt
append-IsFree slots s (j ∷ free) f = (
  (
    omega (arith, length-append slots (s ∷ []), f.0.0),
    ap (λ (x : Slot). x.active) (get_or-append_left slots (s ∷ []) j no_slot f.0.0) ∙ f.0.1,
  ),
  append-IsFree slots s free f.1,
)

-- An active slot is on no free list.
pub active-Absent :
    (slots : List Slot) (i : ℕ) (free : List ℕ)
    → (get_or slots i no_slot).active ≡ true
    → All (IsFree slots) free
    → Absent i free
active-Absent slots i [] a f = tt
active-Absent slots i (j ∷ free) a f = (
  (λ e. cc (ap (λ t. (get_or slots t no_slot).active) e, f.0.1)),
  active-Absent slots i free a f.1,
)

-- An index that a map entry names holds on to its slot when another slot is written.
abbrev pub Holds : List Slot → ℕ → ℕ → Type 0
Holds slots token j =
    (j < length slots)
    × ((get_or slots j no_slot).active ≡ true)
    × ((get_or slots j no_slot).token ≡ token)

pub set-Holds :
    (slots : List Slot) (i : ℕ) (s : Slot) (token j : ℕ)
    → i ≢ j
    → Holds slots token j
    → Holds (set slots i s) token j
set-Holds slots i s token j apart (inside, active, holds) =
    let same : get_or (set slots i s) j no_slot ≡ get_or slots j no_slot =
      get_or-set_ne slots i j s no_slot apart in
    (
      omega (arith, length-set slots i s, inside),
      ap (λ (x : Slot). x.active) same ∙ active,
      ap (λ (x : Slot). x.token) same ∙ holds,
    )
