-- ===== src/Persist/Restart/StateHash.antt =====
-- NeuronCore/WarmRestart.h, `StateHash`: the hash of the persistent state.
use earth_rise_game.Prelude.{ℕ, zero, suc, ◌*◌, ◌/◌, ◌%◌, ◌^◌, bit_xor, List, [], ◌∷◌, length}
use earth_rise_game.Serde.Buffer.{to_uint64}
use earth_rise_game.Serde.Parser.{to_uint32}
use earth_rise_game.Persist.Restart.{
  PersistBase, PersistShip, PersistBuild, PersistNpc, PersistState,
}

-- The loop of `HashU64`, `n` rounds from byte `i` on.
unfoldable pub hash_bytes : ℕ → ℕ → ℕ → ℕ → ℕ
hash_bytes zero i h v = h
hash_bytes (suc n) i h v =
    hash_bytes n (suc i) (bit_xor h (v / 2 ^ (i * 8) % 2 ^ 8) * 0x100000001B3 % 2 ^ 64) v

-- `HashU64`.
unfoldable pub hash_u64 : ℕ → ℕ → ℕ
hash_u64 h v = hash_bytes 8 0 h v

-- `HashF32`.
abbrev pub hash_f32 : ℕ → ℕ → ℕ
hash_f32 h bits = hash_u64 h bits

-- The body of the loop of `StateHash` over the bases.
unfoldable pub hash_base : ℕ → PersistBase → ℕ
hash_base h b =
    let h = hash_u64 h b.net_id in
    let h = hash_u64 h b.owner_account in
    let h = hash_u64 h (to_uint64 b.x) in
    let h = hash_u64 h (to_uint64 b.y) in
    let h = hash_u64 h (to_uint64 b.z) in
    let h = hash_u64 h (to_uint32 b.shield_hp) in
    let h = hash_u64 h (to_uint32 b.armor_hp) in
    let h = hash_u64 h (to_uint32 b.hull_hp) in
    let h = hash_f32 h b.ore in
    let h = hash_f32 h b.ice in
    let h = hash_f32 h b.gas in
    let h = hash_f32 h b.fuel in let h = hash_u64 h b.nav_phase in hash_u64 h b.base_state

-- The body of the loop of `StateHash` over the ships.
unfoldable pub hash_ship : ℕ → PersistShip → ℕ
hash_ship h sh =
    let h = hash_u64 h sh.net_id in
    let h = hash_u64 h sh.owner_account in
    let h = hash_u64 h (to_uint64 sh.x) in
    let h = hash_u64 h (to_uint64 sh.y) in
    let h = hash_u64 h (to_uint64 sh.z) in
    let h = hash_u64 h (to_uint32 sh.hp) in
    let h = hash_f32 h sh.ore in
    let h = hash_f32 h sh.ice in let h = hash_f32 h sh.gas in hash_u64 h sh.ship_type

-- The body of the loop of `StateHash` over the builds.
unfoldable pub hash_build : ℕ → PersistBuild → ℕ
hash_build h bd =
    let h = hash_u64 h bd.owner_account in
    let h = hash_u64 h bd.item_def_id in hash_f32 h bd.progress

-- The body of the loop of `StateHash` over the npcs.
unfoldable pub hash_npc : ℕ → PersistNpc → ℕ
hash_npc h n =
    let h = hash_u64 h n.net_id in
    let h = hash_u64 h (to_uint64 n.x) in
    let h = hash_u64 h (to_uint64 n.y) in
    let h = hash_u64 h (to_uint64 n.z) in
    let h = hash_u64 h (to_uint32 n.hp) in let h = hash_u64 h n.site_id in hash_u64 h n.ai_state

-- A loop of `StateHash`.
unfoldable pub hash_all {ℓ} : {A : Type ℓ} → (ℕ → A → ℕ) → ℕ → List A → ℕ
hash_all hash h [] = h
hash_all hash h (x ∷ xs) = hash_all hash (hash h x) xs

-- `StateHash`.
unfoldable pub state_hash : PersistState → ℕ
state_hash s =
    let h : ℕ = 0xCBF29CE484222325 in
    let h = hash_u64 h s.tick in
    let h = hash_u64 h s.outbox_seq in
    let h = hash_all hash_base (hash_u64 h (length s.bases)) s.bases in
    let h = hash_all hash_ship (hash_u64 h (length s.ships)) s.ships in
    let h = hash_all hash_build (hash_u64 h (length s.builds)) s.builds in
    hash_all hash_npc (hash_u64 h (length s.npcs)) s.npcs
