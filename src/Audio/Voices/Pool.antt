-- ===== src/Audio/Voices/Pool.antt =====
-- The handles that play are a set: `acquire` adds a new one, `release` takes one away.
use earth_rise_game.Prelude.{
  ℕ, suc, ◌+◌, ◌*◌, ◌-◌, ◌%◌, ◌^◌, ◌≤◌, ◌<◌, ◌≡◌, ◌⊎◌, refl, ap, sym, ◌∙◌, bit_and, Bool, true,
  false, not, ◌&&◌, ◌||◌, List, [], ◌∷◌, ◌++◌, Option, none, some, leb, ◌==◌, if◌then◌else◌, arith,
  length, set, length-append, length-set, get_or-set_self, get_or-set_ne, Bool-cases, inl, inr,
  ==→eq, ne→==,
}
use earth_rise_game.Prelude.Mask.{bit_and_mask}
use earth_rise_game.Prelude.Vectors.{get_or_out, get_or-append_replicate}
use earth_rise_game.Audio.Voices.{
  Format, Search, reuse, no_match, first_of, VoiceSlot, new_slot, slot_at, make_voice_id,
  format_matches, resolve, release, free_slot_state, voice_index, voice_generation, search, target,
  make_voice, acquire,
}
use earth_rise_game.Audio.Voices.Slots.{
  make_voice_id_lem, is_some, plays, sounds, plays_lem, started, idle_write, stopped, sounds_low,
  voice_index_lem,
}

-- What holds of the index that was found, if one was.
abbrev IsOption : (ℕ → Type 0) → Option ℕ → Type 0
IsOption P none = Unit
IsOption P (some k) = P k

abbrev IsSearch : (ℕ → Type 0) → Search → Type 0
IsSearch P (reuse k) = P k
IsSearch P (no_match a b) = IsOption P a × IsOption P b

first_of-IsOption :
    (P : ℕ → Type 0) (o : Option ℕ) (i : ℕ) → IsOption P o → P i → IsOption P (first_of o i)
first_of-IsOption P none i h p = p
first_of-IsOption P (some k) i h p = h

module _ {ℓ} {V : Type ℓ} where
  -- The cases of a slot that is not busy.
  choice :
      (P : ℕ → Type 0) (o : Option V) (matches : Bool) (routed : V → Bool) (x y z : Search) (i : ℕ)
      → IsSearch P x
      → IsSearch P y
      → IsSearch P z
      → P i
      → IsSearch P (elim o [
        | none ↦ x
        | some v ↦ if not matches then y else if routed v then reuse i else z
      ])
  choice P none matches routed x y z i hx hy hz p = hx
  choice P (some v) false routed x y z i hx hy hz p = hy
  choice P (some v) true routed x y z i hx hy hz p = elim (Bool-cases (routed v)) [
    | inl e ↦ rw e p
    | inr e ↦ rw e hz
  ]

  -- The search finds slots that are not busy.
  search-IsSearch :
      (P : ℕ → Type 0) (routed : V → Bool) (format : Format) (slots : List (VoiceSlot V)) (i : ℕ)
      (a b : Option ℕ)
      → ((j : ℕ) → j < length slots → (slot_at slots j).busy ≡ false → P (i + j))
      → IsOption P a
      → IsOption P b
      → IsSearch P (search routed format slots i a b)
  unfolding search
  search-IsSearch P routed format [] i a b free ha hb = (ha, hb)
  search-IsSearch P routed format (slot ∷ slots) i a b free ha hb =
      let later : (j : ℕ) → j < length slots → (slot_at slots j).busy ≡ false → P (suc i + j) =
        λ j low idle. rw (shift i j) (free (suc j) (omega arith) idle) in
      let skip = search-IsSearch P routed format slots (suc i) a b later ha hb in
      let empty = λ (p : P i).
        search-IsSearch P routed format slots (suc i) (first_of a i) b later
          (first_of-IsOption P a i ha p) hb in
      let other = λ (p : P i).
        search-IsSearch P routed format slots (suc i) a (first_of b i) later ha
          (first_of-IsOption P b i hb p) in
      elim (Bool-cases slot.busy) [
        | inl y ↦ rw y skip
        | inr n ↦
            let here : P i = rw (at_start i) at (free 0 (omega arith) n) in
            rw n (
              choice P slot.voice (format_matches slot.format format) routed _ _ _ i (empty here)
                (other here) skip here)
      ]
    where
      shift : (i j : ℕ) → suc i + j ≡ i + suc j
      shift i j = omega arith

      at_start : (i : ℕ) → i + 0 ≡ i
      at_start i = omega arith

  -- At most 2 ^ 20 slots, with generations of 12 bits that are not 0.
  pub record IsPool (slots : List (VoiceSlot V)) : Type ℓ where
    pub few : length slots ≤ 2 ^ 20
    pub gens :
        (i : ℕ) → (0 < (slot_at slots i).generation) × ((slot_at slots i).generation < 2 ^ 12)

  set-IsPool :
      (slots : List (VoiceSlot V)) (i : ℕ) (s : VoiceSlot V)
      → IsPool slots
      → i < length slots
      → 0 < s.generation
      → s.generation < 2 ^ 12
      → IsPool (set slots i s)
  set-IsPool slots i s v low p g = record {
    few = omega (arith, length-set slots i s, v.few);
    gens = λ j. elim (Bool-cases (i == j)) [
      | inl y ↦ rw (sym (==→eq i j y), get_or-set_self slots i s new_slot low) (p, g)
      | inr n ↦ rw (get_or-set_ne slots i j s new_slot (ground arith)) (v.gens j)
    ];
  }

  free_slot_state-gen :
      (s : VoiceSlot V)
      → (0 < (free_slot_state s).generation) × ((free_slot_state s).generation < 2 ^ 12)
  unfolding free_slot_state
  free_slot_state-gen s =
      let next : bit_and (s.generation + 1) (2 ^ 12 - 1) ≡ (s.generation + 1) % 2 ^ 12 =
        bit_and_mask 12 (s.generation + 1) in
      rw next (ground arith, ground arith)

  -- A free slot.
  abbrev Free : List (VoiceSlot V) → ℕ → Type 0
  Free slots i = (i < length slots) × ((slot_at slots i).busy ≡ false)

  record Acquired (slots : List (VoiceSlot V)) (id : ℕ) (slots' : List (VoiceSlot V)) : Type ℓ where
    pool : IsPool slots'
    word : id < 2 ^ 32
    fresh : sounds id slots ≡ false
    now : (h : ℕ) → h < 2 ^ 32 → sounds h slots' ≡ (not (id == 0) && (h == id) || sounds h slots)

  -- A free slot is taken.
  taken :
      (slots : List (VoiceSlot V)) (i : ℕ) (s : VoiceSlot V)
      → IsPool slots
      → Free slots i
      → s.busy ≡ true
      → s.generation ≡ (slot_at slots i).generation
      → Acquired slots (make_voice_id i (slot_at slots i).generation) (set slots i s)
  taken slots i s v free on same =
      let gen : ℕ = (slot_at slots i).generation in
      let (p, g) = v.gens i in
      let few : i < 2 ^ 20 = omega (arith, free.0, v.few) in
      let value : make_voice_id i gen ≡ gen * 2 ^ 20 + i = make_voice_id_lem i gen few g in
      record {
        pool = set-IsPool slots i s v free.0 (omega (arith, p, same)) (omega (arith, g, same));
        word = omega (arith, value, g, few);
        fresh = unheard (make_voice_id i gen) slots i (omega (arith, value, few)) free.1;
        now = λ h small. rw (ne→== (make_voice_id i gen) 0 (omega (arith, value, p))) (
            started h slots i s small free.0 few (omega (arith, p, same)) (omega (arith, g, same))
              on free.1
            ∙ ap (λ (n : ℕ). h == make_voice_id i n || sounds h slots) same);
      }
    where
      unheard :
          (id : ℕ) (slots : List (VoiceSlot V)) (i : ℕ)
          → id % 2 ^ 20 ≡ i
          → (slot_at slots i).busy ≡ false
          → sounds id slots ≡ false
      unheard id slots i q off = rw (q, off) (ground arith)

  -- No handle is made, and no slot that is busy changes.
  refused :
      (slots slots' : List (VoiceSlot V))
      → IsPool slots'
      → ((h : ℕ) → sounds h slots' ≡ sounds h slots)
      → Acquired slots 0 slots'
  refused slots slots' v same = record {
    pool = v;
    word = omega arith;
    fresh = refl;
    now = λ h small. same h;
  }

  same_base :
      (slots base : List (VoiceSlot V)) (id : ℕ) (slots' : List (VoiceSlot V))
      → ((h : ℕ) → sounds h base ≡ sounds h slots)
      → Acquired base id slots'
      → Acquired slots id slots'
  same_base slots base id slots' e a = record {
    pool = a.pool;
    word = a.word;
    fresh = sym (e id) ∙ a.fresh;
    now = λ h small. a.now h small ∙ ap (λ (b : Bool). not (id == 0) && (h == id) || b) (e h);
  }

  -- The slot for a new voice is free, in a pool in which the same handles play.
  target_lem :
      (a b : Option ℕ) (slots : List (VoiceSlot V))
      → IsPool slots
      → length slots < 2 ^ 20
      → IsOption (Free slots) a
      → IsOption (Free slots) b
      → let (i, slots') = target a b slots in
        Free slots' i × IsPool slots' × ((h : ℕ) → sounds h slots' ≡ sounds h slots)
  unfolding target
  target_lem (some i) b slots v room ha hb = (ha, v, λ h. refl)
  target_lem none (some i) slots v room ha hb = (hb, v, λ h. refl)
  target_lem none none slots v room ha hb =
      let grown : (i : ℕ) → slot_at (slots ++ (new_slot ∷ [])) i ≡ slot_at slots i =
        λ i. get_or-append_replicate slots 1 i new_slot in
      let size : length (slots ++ (new_slot ∷ [])) ≡ length slots + 1 =
        length-append slots (new_slot ∷ []) in
      (
        (
          omega (arith, size),
          ap (λ (r : VoiceSlot V). r.busy)
              (grown (length slots) ∙ get_or_out slots (length slots) new_slot (omega arith)),
        ),
        record { few = omega (arith, size, room); gens = λ i. rw (grown i) (v.gens i) },
        λ h. rw (grown (h % 2 ^ 20)) refl,
      )

  make_voice_lem :
      (created : Option V) (format : Format) (i : ℕ) (slots : List (VoiceSlot V))
      → IsPool slots
      → Free slots i
      → let (id, made, slots') = make_voice created format i slots in Acquired slots id slots'
  unfolding make_voice
  make_voice_lem none format i slots v free =
      let s : VoiceSlot V = record (slot_at slots i) { voice = none } in
      refused slots (set slots i s) (set-IsPool slots i s v free.0 (v.gens i).0 (v.gens i).1)
        (λ h. idle_write h slots i s free.0 free.1 free.1)
  make_voice_lem (some voice) format i slots v free = taken slots i _ v free refl refl

  -- The slots after a search.
  searched :
      (created : Option V) (format : Format) (slots : List (VoiceSlot V)) (r : Search)
      → IsPool slots
      → length slots < 2 ^ 20
      → IsSearch (Free slots) r
      → let (id, out, slots') = elim r as (λ x. ℕ × Option V × List (VoiceSlot V)) [
        | reuse i ↦ (
          make_voice_id i (slot_at slots i).generation,
          (slot_at slots i).voice,
          set slots i (record (slot_at slots i) { busy = true }),
        )
        | no_match a b ↦ let (i, slots') = target a b slots in make_voice created format i slots'
      ] in
        Acquired slots id slots'
  searched created format slots (reuse i) v room free = taken slots i _ v free refl refl
  searched created format slots (no_match a b) v room free =
      let (i, slots') = target a b slots in
      let (idle, pool, same) = target_lem a b slots v room free.0 free.1 in
      same_base slots slots' _ _ same (make_voice_lem created format i slots' pool idle)

  acquire-Acquired :
      (ready : Bool) (routed : V → Bool) (created : Option V) (format : Format)
      (slots : List (VoiceSlot V))
      → IsPool slots
      → length slots < 2 ^ 20
      → let (id, out, slots') = acquire ready routed created format slots in
        Acquired slots id slots'
  unfolding acquire
  acquire-Acquired false routed created format slots v room = refused slots slots v (λ h. refl)
  acquire-Acquired true routed created format slots v room =
      searched created format slots (search routed format slots 0 none none) v room (
        search-IsSearch (Free slots) routed format slots 0 none none
          (λ j low off. rw (first j) (low, off)) tt tt)
    where
      first : (j : ℕ) → 0 + j ≡ j
      first j = omega arith

  -- In a well-formed pool of fewer than 2 ^ 20 slots, acquire returns the null handle and leaves the handles
  -- that play as they were; or it returns a handle that did not play, and that plays afterwards beside the
  -- others. Handles are 32-bit numbers, and the pool stays well formed.
  pub acquire_lem :
      (ready : Bool) (routed : V → Bool) (created : Option V) (format : Format)
      (slots : List (VoiceSlot V))
      → IsPool slots
      → length slots < 2 ^ 20
      → let (id, out, slots') = acquire ready routed created format slots in
        IsPool slots'
        × (plays id slots ≡ false)
        × ((h : ℕ) → h < 2 ^ 32 → plays h slots' ≡ (not (id == 0) && (h == id) || plays h slots))
  acquire_lem ready routed created format slots v room =
      let (id, out, slots') = acquire ready routed created format slots in
      let a : Acquired slots id slots' =
        acquire-Acquired ready routed created format slots v room in
      (
        a.pool,
        plays_lem id slots a.word ∙ a.fresh,
        λ h small.
            plays_lem h slots' small
            ∙ a.now h small
            ∙ ap (λ (b : Bool). not (id == 0) && (h == id) || b) (sym (plays_lem h slots small)),
      )

  resolved :
      (id : ℕ) (slots : List (VoiceSlot V))
      → (resolve id slots ≡ none) ⊎ (resolve id slots ≡ some (id % 2 ^ 20))
  unfolding resolve
  resolved id slots =
      let i : ℕ = voice_index id in
      rw (sym (voice_index_lem id)) (elim (Bool-cases (id == 0)) [
        | inl y ↦ rw y (inl refl)
        | inr n ↦ elim (Bool-cases (leb (length slots) i)) [
          | inl y ↦ rw (n, y) (inl refl)
          | inr m ↦
              elim (Bool-cases (
                not (slot_at slots i).busy
                || not ((slot_at slots i).generation == voice_generation id))) [
                  | inl y ↦ rw (n, m, y) (inl refl)
                  | inr k ↦ rw (n, m, k) (inr refl)
                ]
        ]
      ])

  released :
      (id : ℕ) (slots : List (VoiceSlot V)) (o : Option ℕ)
      → resolve id slots ≡ o
      → release id slots
        ≡ elim o [ none ↦ slots | some i ↦ set slots i (free_slot_state (slot_at slots i)) ]
  unfolding release
  released id slots o e =
      ap
        (λ (o : Option ℕ). elim o [
          | none ↦ slots
          | some i ↦ set slots i (free_slot_state (slot_at slots i))
        ])
        e

  -- In a well-formed pool, release takes its handle from the handles that play, and leaves the others; a
  -- handle that does not play, such as one of an earlier use of its slot, takes none away.
  pub release_lem :
      (id : ℕ) (slots : List (VoiceSlot V))
      → id < 2 ^ 32
      → IsPool slots
      → IsPool (release id slots)
        × ((h : ℕ) → h < 2 ^ 32 → plays h (release id slots) ≡ (not (h == id) && plays h slots))
  release_lem id slots word v = elim (resolved id slots) [
    | inl e ↦ rw (released id slots none e) (v, λ h small. silent h (ap is_some e))
    | inr e ↦
        let live : sounds id slots ≡ true = sym (plays_lem id slots word) ∙ ap is_some e in
        let s : VoiceSlot V = free_slot_state (slot_at slots (id % 2 ^ 20)) in
        let (p, g) = free_slot_state-gen (slot_at slots (id % 2 ^ 20)) in
        let idle : s.busy ≡ false = unfold free_slot_state in refl in
        rw (released id slots (some (id % 2 ^ 20)) e) (
          set-IsPool slots (id % 2 ^ 20) s v (sounds_low id slots live) p g,
          λ h small.
              plays_lem h (set slots (id % 2 ^ 20) s) small
              ∙ stopped h id slots s live idle
              ∙ ap (λ (b : Bool). not (h == id) && b) (sym (plays_lem h slots small)),
        )
  ]
    where
      silent : (h : ℕ) → plays id slots ≡ false → plays h slots ≡ (not (h == id) && plays h slots)
      silent h off = elim (Bool-cases (h == id)) [
        | inl y ↦ rw (y, ==→eq h id y, off) refl
        | inr n ↦ rw n refl
      ]

  -- In a well-formed pool of fewer than 2 ^ 20 slots, acquire returns the null handle and leaves the handles
  -- that play as they were; or it returns a handle that did not play, and that plays afterwards beside the
  -- others. For a 32-bit handle, release takes it from the handles that play, and leaves the others: a
  -- handle that does not play, such as one of an earlier use of its slot, takes none away. Both keep the
  -- pool well formed.
  pub handles_refine :
      (ready : Bool) (routed : V → Bool) (created : Option V) (format : Format)
      (slots : List (VoiceSlot V)) (gone : ℕ)
      → IsPool slots
      → length slots < 2 ^ 20
      → gone < 2 ^ 32
      → let (id, out, slots') = acquire ready routed created format slots in
        (IsPool slots'
          × (plays id slots ≡ false)
          × ((h : ℕ) → h < 2 ^ 32 → plays h slots' ≡ (not (id == 0) && (h == id) || plays h slots)))
        × (IsPool (release gone slots)
            × ((h : ℕ)
                → h < 2 ^ 32
                → plays h (release gone slots) ≡ (not (h == gone) && plays h slots)))
  handles_refine ready routed created format slots gone v room word =
      (acquire_lem ready routed created format slots v room, release_lem gone slots word v)
