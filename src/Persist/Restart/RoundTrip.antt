-- ===== src/Persist/Restart/RoundTrip.antt =====
-- A warm-restart blob is decoded to the state it was made of.
use native.Mathlib.Nat.{mod-eq_of_lt}
use earth_rise_game.Prelude.{
  ℕ, ◌^◌, ◌<◌, ◌≡◌, refl, ap, sym, ◌∙◌, true, List, [], ◌∷◌, ◌++◌, length, All, append-nil,
}
use earth_rise_game.Serde.BitStream.{BitWriter, write_uint32, write_uint64, flush}
use earth_rise_game.Serde.BitStream.RoundTrip.{Field, write_all, write_all-append}
use earth_rise_game.Serde.Buffer.{new_write_buffer}
use earth_rise_game.Serde.Parser.{Parser}
use earth_rise_game.Serde.Parser.Sequence.{
  Parses, done-Parses, then-Parses, get32, get64, get_check, fields_of, repeat-Parses,
}
use earth_rise_game.Serde.Parser.Message.{message, parse-message}
use earth_rise_game.Persist.Restart.{
  PersistState, write_base, write_ship, write_build, write_npc, write_items, write_list,
  encode_state, read_base, read_ship, read_build, read_npc, read_list, read_state, decode_state,
}
use earth_rise_game.Persist.Restart.Fields.{
  IsBase, IsShip, IsBuild, IsNpc, base_fields, ship_fields, build_fields, npc_fields,
  write_base_lem, write_ship_lem, write_build_lem, write_npc_lem, read_base-Parses,
  read_ship-Parses, read_build-Parses, read_npc-Parses,
}

module _ {ℓ} {A : Type ℓ} (fields : A → List Field) where
  -- A list on the wire: its length, and the fields of its items.
  abbrev list_fields : List A → List Field
  list_fields xs = (length xs, 32) ∷ fields_of fields xs

  write_items_lem :
      (write_item : A → BitWriter → BitWriter)
      → ((x : A) (w : BitWriter) → write_item x w ≡ write_all (fields x) w)
      → (xs : List A) (w : BitWriter)
      → write_items write_item xs w ≡ write_all (fields_of fields xs) w
  unfolding write_items write_all
  write_items_lem write_item h [] w = refl
  write_items_lem write_item h (x ∷ xs) w =
      write_items_lem write_item h xs (write_item x w)
      ∙ ap (write_all (fields_of fields xs)) (h x w)
      ∙ sym (write_all-append (fields x) (fields_of fields xs) w)

  write_list_lem :
      (write_item : A → BitWriter → BitWriter)
      → ((x : A) (w : BitWriter) → write_item x w ≡ write_all (fields x) w)
      → (xs : List A) (w : BitWriter) → length xs < 2 ^ 32
      → write_list write_item xs w ≡ write_all (list_fields xs) w
  unfolding write_list write_all write_uint32
  write_list_lem write_item h xs w small =
      ap (λ (n : ℕ). write_items write_item xs (write_uint32 n w)) (mod-eq_of_lt small)
      ∙ write_items_lem write_item h xs (write_uint32 (length xs) w)

  read_list-Parses :
      (p : Parser A) (xs : List A)
      → All (λ x. Parses p (fields x) x) xs
      → length xs < 2 ^ 32
      → Parses (read_list p) (list_fields xs) xs
  unfolding read_list
  read_list-Parses p xs h small = get32 _ _ small (repeat-Parses p fields xs h)

-- Every entry is as it should be, so every entry has what follows from that.
All-map {ℓ} :
    {A : Type ℓ} (P Q : A → Type 0) → ((x : A) → P x → Q x) → (xs : List A) → All P xs → All Q xs
All-map P Q f [] h = tt
All-map P Q f (x ∷ xs) h = (f x h.0, All-map P Q f xs h.1)

-- What a state fits: 64-bit counters, lists shorter than 2 ^ 32, and the types of their fields.
pub record IsState (s : PersistState) : Type 0 where
  pub tick : s.tick < 2 ^ 64
  pub outbox_seq : s.outbox_seq < 2 ^ 64
  pub bases : All IsBase s.bases
  pub base_count : length s.bases < 2 ^ 32
  pub ships : All IsShip s.ships
  pub ship_count : length s.ships < 2 ^ 32
  pub builds : All IsBuild s.builds
  pub build_count : length s.builds < 2 ^ 32
  pub npcs : All IsNpc s.npcs
  pub npc_count : length s.npcs < 2 ^ 32

-- The four lists on the wire, the last one first.
npcs_fields : PersistState → List Field
npcs_fields s = list_fields npc_fields s.npcs ++ []

abbrev builds_fields : PersistState → List Field
builds_fields s = list_fields build_fields s.builds ++ npcs_fields s

abbrev ships_fields : PersistState → List Field
ships_fields s = list_fields ship_fields s.ships ++ builds_fields s

abbrev bases_fields : PersistState → List Field
bases_fields s = list_fields base_fields s.bases ++ ships_fields s

state_fields : PersistState → List Field
state_fields s = (s.tick, 64) ∷ (s.outbox_seq, 64) ∷ bases_fields s

encode_state_lem : (s : PersistState) → IsState s → encode_state s ≡ message (state_fields s)
unfolding encode_state state_fields npcs_fields flush write_uint64 write_all
encode_state_lem s v =
    let start : BitWriter = write_uint64 s.outbox_seq (write_uint64 s.tick new_write_buffer) in
    let last : (w : BitWriter) → write_list write_npc s.npcs w ≡ write_all (npcs_fields s) w = λ w.
      rw (append-nil (list_fields npc_fields s.npcs))
        (write_list_lem npc_fields write_npc write_npc_lem s.npcs w v.npc_count) in
    let third : (w : BitWriter)
        → write_list write_npc s.npcs (write_list write_build s.builds w)
          ≡ write_all (builds_fields s) w =
      λ w.
        last (write_list write_build s.builds w)
        ∙ ap (write_all (npcs_fields s))
            (write_list_lem build_fields write_build write_build_lem s.builds w v.build_count)
        ∙ sym (write_all-append (list_fields build_fields s.builds) (npcs_fields s) w) in
    let second : (w : BitWriter)
        → write_list write_npc s.npcs
            (write_list write_build s.builds (write_list write_ship s.ships w))
          ≡ write_all (ships_fields s) w =
      λ w.
        third (write_list write_ship s.ships w)
        ∙ ap (write_all (builds_fields s))
            (write_list_lem ship_fields write_ship write_ship_lem s.ships w v.ship_count)
        ∙ sym (write_all-append (list_fields ship_fields s.ships) (builds_fields s) w) in
    ap (λ (w : BitWriter). w.buf)
      (second (write_list write_base s.bases start)
        ∙ ap (write_all (ships_fields s))
            (write_list_lem base_fields write_base write_base_lem s.bases start v.base_count)
        ∙ sym (write_all-append (list_fields base_fields s.bases) (ships_fields s) start))

read_state-Parses : (s : PersistState) → IsState s → Parses read_state (state_fields s) (true, s)
unfolding read_state state_fields npcs_fields
read_state-Parses s v = get64 _ _ v.tick (
    get64 _ _ v.outbox_seq (
      then-Parses _ (list_fields base_fields s.bases) (ships_fields s)
        (read_list-Parses base_fields read_base s.bases
          (All-map IsBase (λ x. Parses read_base (base_fields x) x) read_base-Parses s.bases
            v.bases)
          v.base_count)
        (then-Parses _ (list_fields ship_fields s.ships) (builds_fields s)
          (read_list-Parses ship_fields read_ship s.ships
            (All-map IsShip (λ x. Parses read_ship (ship_fields x) x) read_ship-Parses s.ships
              v.ships)
            v.ship_count)
          (then-Parses _ (list_fields build_fields s.builds) (npcs_fields s)
            (read_list-Parses build_fields read_build s.builds
              (All-map IsBuild (λ x. Parses read_build (build_fields x) x) read_build-Parses
                s.builds v.builds)
              v.build_count)
            (then-Parses _ (list_fields npc_fields s.npcs) []
              (read_list-Parses npc_fields read_npc s.npcs
                (All-map IsNpc (λ x. Parses read_npc (npc_fields x) x) read_npc-Parses s.npcs
                  v.npcs)
                v.npc_count)
              (get_check _ (done-Parses (true, s))))))))

-- A state whose fields fit their types, and each of whose lists has fewer than 2 ^ 32 entries, is
-- decoded to itself from what EncodeState makes of it, with the result true, whatever `out` held.
pub decode-encode_state :
    (s out : PersistState) → IsState s → decode_state (encode_state s) out ≡ (true, s)
unfolding decode_state
decode-encode_state s out v =
    let (good, val, after) =
      parse-message read_state (state_fields s) (true, s) (read_state-Parses s v) in
    rw (encode_state_lem s v, good) val
