-- ===== src/Serde/Parser/Sequence.antt =====
-- Decoders that read back a list of fields.
use native.Mathlib.Nat.{mod-eq_of_lt}
use earth_rise_game.Prelude.{
  ℕ, ◌+◌, ◌-◌, ◌*◌, ◌^◌, ◌<◌, ◌≡◌, refl, ap, sym, ◌∙◌, Bool, true, false, List, [], ◌∷◌, ◌++◌,
  arith, length, All, All-append, append-nil,
}
use earth_rise_game.Prelude.Int.{ℤ, pos, negsuc}
use earth_rise_game.Prelude.Chunks.{pow-add, below_chunk, div_join, mod-join_low}
use earth_rise_game.Serde.BitStream.{
  BitReader, read, read_uint8, read_uint16, read_uint32, read_uint64,
}
use earth_rise_game.Serde.BitStream.Readback.{Shows}
use earth_rise_game.Serde.BitStream.Reading.{read-Shows}
use earth_rise_game.Serde.BitStream.RoundTrip.{
  Field, Fits, fields_bits, fields_number, fields_number-lt,
}
use earth_rise_game.Serde.Buffer.{ReadBuffer, read_bits, to_int64, to_uint64, is_good}
use earth_rise_game.Serde.Buffer.Version.{IsInt64, to_int64-to_uint64}
use earth_rise_game.Serde.Parser.{
  Parser, ◌>>=◌, done, u8, u16, u32, u64, i64, i32, to_int32, to_uint32, repeat, check,
}

-- Of a good stream that begins with the fields, the decoder makes `a`, and leaves what is behind them.
abbrev pub Reads {ℓ} : {A : Type ℓ} → Parser A → List Field → A → Type ℓ
Reads p fs a =
    (b : ReadBuffer) (t z : ℕ)
    → z < 2 ^ t
    → b.version_mismatch ≡ false
    → Shows b.reader (fields_number fs * 2 ^ t + z) (fields_bits fs + t)
    → ((p b).0 ≡ a) × Shows (p b).1.reader z t × ((p b).1.version_mismatch ≡ false)

pub record Parses {ℓ} {A : Type ℓ} (p : Parser A) (fs : List Field) (a : A) : Type ℓ where
  pub fit : All Fits fs
  pub reads : Reads p fs a

pub fields_bits-append :
    (fs gs : List Field) → fields_bits (fs ++ gs) ≡ fields_bits fs + fields_bits gs
unfolding fields_bits
fields_bits-append [] gs = omega arith
fields_bits-append ((v, bits) ∷ fs) gs = omega (arith, fields_bits-append fs gs)

pub fields_number-append :
    (fs gs : List Field)
    → fields_number (fs ++ gs) ≡ fields_number fs * 2 ^ fields_bits gs + fields_number gs
unfolding fields_number fields_bits
fields_number-append [] gs = omega arith
fields_number-append ((v, bits) ∷ fs) gs =
    rw
      (
        fields_number-append fs gs,
        fields_bits-append fs gs,
        pow-add (fields_bits fs) (fields_bits gs),
      )
      (grind arith)

module _ {ℓ κ} {A : Type ℓ} {B : Type κ} where
  -- One decoder after another.
  pub then-Parses :
      {p : Parser A} (q : A → Parser B) (fs gs : List Field) {a : A} {c : B}
      → Parses p fs a
      → Parses (q a) gs c
      → Parses (p >>= q) (fs ++ gs) c
  unfolding ◌>>=◌
  then-Parses {p} q fs gs {a} {c} x y = record {
    fit = All-append Fits fs gs x.fit y.fit;
    reads = λ b t z small m s.
        let rest : ℕ = fields_number gs * 2 ^ t + z in
        let below : rest < 2 ^ (fields_bits gs + t) = rw (pow-add (fields_bits gs) t) (
          below_chunk (fields_number gs) (2 ^ fields_bits gs) (2 ^ t) z (fields_number-lt gs y.fit)
            small) in
        let front : fields_number (fs ++ gs) * 2 ^ t + z
            ≡ fields_number fs * 2 ^ (fields_bits gs + t) + rest =
          rw (fields_number-append fs gs, pow-add (fields_bits gs) t) (grind arith) in
        let width : fields_bits (fs ++ gs) + t ≡ fields_bits fs + (fields_bits gs + t) =
          omega (arith, fields_bits-append fs gs) in
        let (val, shown, same) =
          x.reads b (fields_bits gs + t) rest below m (rw (front, width) at s) in
        let (val', shown', same') = rw (sym val) at y.reads (p b).1 t z small same shown in
        (val', shown', same');
  }

none_number : (t z : ℕ) → fields_number [] * 2 ^ t + z ≡ z
unfolding fields_number
none_number t z = omega arith

none_bits : (t : ℕ) → fields_bits [] + t ≡ t
unfolding fields_bits
none_bits t = omega arith

module _ {ℓ} {A : Type ℓ} where
  pub done-Parses : (a : A) → Parses (done a) [] a
  unfolding done
  done-Parses a = record {
    fit = tt;
    reads = λ b t z small m s. (refl, rw (none_number t z, none_bits t) at s, m);
  }

-- One field.
one_number : (v bits t z : ℕ) → fields_number ((v, bits) ∷ []) * 2 ^ t + z ≡ v * 2 ^ t + z
unfolding fields_number fields_bits
one_number v bits t z = omega arith

one_bits : (v bits t : ℕ) → fields_bits ((v, bits) ∷ []) + t ≡ bits + t
unfolding fields_bits
one_bits v bits t = omega arith

pub read_one :
    (v bits : ℕ)
    → Fits (v, bits)
    → (r : BitReader) (t z : ℕ) → z < 2 ^ t
    → Shows r (fields_number ((v, bits) ∷ []) * 2 ^ t + z) (fields_bits ((v, bits) ∷ []) + t)
    → ((read bits r).0 ≡ v) × Shows (read bits r).1 z t
read_one v bits f r t z small s =
    let left : bits + t - bits ≡ t = omega arith in
    let (val, after) = rw left at (
      read-Shows bits r (v * 2 ^ t + z) (bits + t) f.2 (omega arith)
        (rw (one_number v bits t z, one_bits v bits t) at s)) in
    (val ∙ div_join v (2 ^ t) z small, rw (mod-join_low v (2 ^ t) z small) at after)

pub read_bits-Parses : (v bits : ℕ) → Fits (v, bits) → Parses (read_bits bits) ((v, bits) ∷ []) v
unfolding read_bits
read_bits-Parses v bits f = record {
  fit = (f, tt);
  reads = λ b t z small m s.
      let (val, after) = read_one v bits f b.reader t z small s in (val, after, m);
}

pub u8-Parses : (v : ℕ) → v < 2 ^ 8 → Parses u8 ((v, 8) ∷ []) v
unfolding u8 read_uint8
u8-Parses v h = record {
  fit = ((h, omega arith, omega arith), tt);
  reads = λ b t z small m s.
      let (val, after) = read_one v 8 (h, omega arith, omega arith) b.reader t z small s in
      (rw val (mod-eq_of_lt h), after, m);
}

pub u16-Parses : (v : ℕ) → v < 2 ^ 16 → Parses u16 ((v, 16) ∷ []) v
unfolding u16 read_uint16
u16-Parses v h = record {
  fit = ((h, omega arith, omega arith), tt);
  reads = λ b t z small m s.
      let (val, after) = read_one v 16 (h, omega arith, omega arith) b.reader t z small s in
      (rw val (mod-eq_of_lt h), after, m);
}

pub u32-Parses : (v : ℕ) → v < 2 ^ 32 → Parses u32 ((v, 32) ∷ []) v
unfolding u32 read_uint32
u32-Parses v h = record {
  fit = ((h, omega arith, omega arith), tt);
  reads = λ b t z small m s.
      let (val, after) = read_one v 32 (h, omega arith, omega arith) b.reader t z small s in
      (rw val (mod-eq_of_lt h), after, m);
}

pub u64-Parses : (v : ℕ) → v < 2 ^ 64 → Parses u64 ((v, 64) ∷ []) v
unfolding u64 read_uint64
u64-Parses v h = record {
  fit = ((h, omega arith, omega arith), tt);
  reads = λ b t z small m s.
      let (val, after) = read_one v 64 (h, omega arith, omega arith) b.reader t z small s in
      (val, after, m);
}

to_uint64-lt : (v : ℤ) → to_uint64 v < 2 ^ 64
unfolding to_uint64
to_uint64-lt (pos n) = omega arith
to_uint64-lt (negsuc n) = omega arith

pub i64-Parses : (v : ℤ) → IsInt64 v → Parses i64 ((to_uint64 v, 64) ∷ []) v
unfolding i64 read_uint64
i64-Parses v h = record {
  fit = ((to_uint64-lt v, omega arith, omega arith), tt);
  reads = λ b t z small m s.
      let (val, after) =
        read_one (to_uint64 v) 64 (to_uint64-lt v, omega arith, omega arith) b.reader t z small s in
      (ap to_int64 val ∙ to_int64-to_uint64 v h, after, m);
}

abbrev pub IsInt32 : ℤ → Type 0
IsInt32 (pos n) = n < 2 ^ 31
IsInt32 (negsuc n) = n < 2 ^ 31

pub to_uint32-lt : (v : ℤ) → to_uint32 v < 2 ^ 32
unfolding to_uint32
to_uint32-lt (pos n) = omega arith
to_uint32-lt (negsuc n) = omega arith

pub to_int32-to_uint32 : (v : ℤ) → IsInt32 v → to_int32 (to_uint32 v) ≡ v
unfolding to_int32 to_uint32
to_int32-to_uint32 (pos n) h = ground arith
to_int32-to_uint32 (negsuc n) h = ground arith

pub i32-Parses : (v : ℤ) → IsInt32 v → Parses i32 ((to_uint32 v, 32) ∷ []) v
unfolding i32
i32-Parses v h =
    then-Parses _ ((to_uint32 v, 32) ∷ []) [] (u32-Parses (to_uint32 v) (to_uint32-lt v))
      (rw (to_int32-to_uint32 v h) (done-Parses v))

-- `IsGood` in the middle of a message.
pub check-Parses : Parses check [] true
unfolding check is_good
check-Parses = record {
  fit = tt;
  reads = λ b t z small m s. (rw (s.good, m) refl, rw (none_number t z, none_bits t) at s, m);
}

-- A field, and the decoder of the others.
module _ {ℓ} {A : Type ℓ} (q : ℕ → Parser A) {gs : List Field} {c : A} where
  pub get8 : (v : ℕ) → v < 2 ^ 8 → Parses (q v) gs c → Parses (u8 >>= q) ((v, 8) ∷ gs) c
  get8 v h y = then-Parses q ((v, 8) ∷ []) gs (u8-Parses v h) y

  pub get16 : (v : ℕ) → v < 2 ^ 16 → Parses (q v) gs c → Parses (u16 >>= q) ((v, 16) ∷ gs) c
  get16 v h y = then-Parses q ((v, 16) ∷ []) gs (u16-Parses v h) y

  pub get32 : (v : ℕ) → v < 2 ^ 32 → Parses (q v) gs c → Parses (u32 >>= q) ((v, 32) ∷ gs) c
  get32 v h y = then-Parses q ((v, 32) ∷ []) gs (u32-Parses v h) y

  pub get64 : (v : ℕ) → v < 2 ^ 64 → Parses (q v) gs c → Parses (u64 >>= q) ((v, 64) ∷ gs) c
  get64 v h y = then-Parses q ((v, 64) ∷ []) gs (u64-Parses v h) y

  pub get_bits :
      (v bits : ℕ)
      → Fits (v, bits)
      → Parses (q v) gs c
      → Parses (read_bits bits >>= q) ((v, bits) ∷ gs) c
  get_bits v bits h y = then-Parses q ((v, bits) ∷ []) gs (read_bits-Parses v bits h) y

module _ {ℓ} {A : Type ℓ} (q : ℤ → Parser A) {gs : List Field} {c : A} where
  pub get_i64 :
      (v : ℤ) → IsInt64 v → Parses (q v) gs c → Parses (i64 >>= q) ((to_uint64 v, 64) ∷ gs) c
  get_i64 v h y = then-Parses q ((to_uint64 v, 64) ∷ []) gs (i64-Parses v h) y

  pub get_i32 :
      (v : ℤ) → IsInt32 v → Parses (q v) gs c → Parses (i32 >>= q) ((to_uint32 v, 32) ∷ gs) c
  get_i32 v h y = then-Parses q ((to_uint32 v, 32) ∷ []) gs (i32-Parses v h) y

module _ {ℓ} {A : Type ℓ} (q : Bool → Parser A) {gs : List Field} {c : A} where
  pub get_check : Parses (q true) gs c → Parses (check >>= q) gs c
  get_check y = then-Parses q [] gs check-Parses y

module _ {ℓ} {A : Type ℓ} where
  -- The fields of the items, one item after another.
  abbrev pub fields_of : (A → List Field) → List A → List Field
  fields_of f [] = []
  fields_of f (x ∷ xs) = f x ++ fields_of f xs

  pub repeat-Parses :
      (p : Parser A) (f : A → List Field) (xs : List A)
      → All (λ x. Parses p (f x) x) xs
      → Parses (repeat (length xs) p) (fields_of f xs) xs
  unfolding repeat
  repeat-Parses p f [] h = done-Parses []
  repeat-Parses p f (x ∷ xs) h = then-Parses _ (f x) (fields_of f xs) h.0 (
      rw (sym (append-nil (fields_of f xs)))
        (then-Parses _ (fields_of f xs) [] (repeat-Parses p f xs h.1) (done-Parses (x ∷ xs))))
