-- ===== src/Database/Keys/Logged.antt =====
-- database/keys.go, database/ping.go: what the commands on keys hand to the log.
use mudis.Database.Recorded.{Recorded}
use mudis.Dict.{Dict}
use mudis.Database.{Entity, State, put_entity, remove, removes, flush, add_aof}
use mudis.Database.Keys.{
  ping, exec_del, exec_exists, exec_flush_db, exec_type, exec_rename, exec_rename_nx,
}
use mudis.Prelude.{
  ℕ, ◌+◌, ◌≤◌, Bytes, codes, List, [], ◌∷◌, ◌++◌, ltb, ◌≡◌, inl, inr, refl, ap, arith, Option-cases,
  Bool-cases,
}

module _ (D : Dict Entity) where
  removes-aof : (db : State D) (n : ℕ) (keys : List Bytes) → (removes D db n keys).0.aof ≡ db.aof
  unfolding removes remove
  removes-aof db n [] = refl
  removes-aof db n (key ∷ keys) = elim (Option-cases (D.get db.contents key)) [
    | inl e ↦ rw (removes, e) (removes-aof db n keys)
    | inr (v, e) ↦ rw (removes, e) (removes-aof (remove D db key) (n + 1) keys)
  ]

  -- A loop that deleted no key changed nothing.
  removes-kept :
      (db : State D) (n : ℕ) (keys : List Bytes)
      → (n ≤ (removes D db n keys).1) × ((removes D db n keys).1 ≤ n → (removes D db n keys).0 ≡ db)
  unfolding removes
  removes-kept db n [] = (omega arith, λ h. refl)
  removes-kept db n (key ∷ keys) = elim (Option-cases (D.get db.contents key)) [
    | inl e ↦ rw (removes, e) (removes-kept db n keys)
    | inr (v, e) ↦
        let (le, same) = removes-kept (remove D db key) (n + 1) keys in
        rw (removes, e) (omega (arith, le), λ h. absurd (omega (arith, le)))
  ]

  pub del-Recorded :
      (db : State D) (args : List Bytes) → Recorded (codes "del") args db (exec_del D db args)
  unfolding exec_del add_aof
  del-Recorded db args = elim (Bool-cases (ltb 0 (removes D db 0 args).1)) [
    | inl e ↦
        rw (exec_del, e)
          (inl (ap (λ l. l ++ (codes "del" ∷ args) ∷ []) (removes-aof db 0 args)), λ e. cc)
    | inr e ↦ rw (exec_del, e) (inr ((removes-kept db 0 args).1 (ground arith)), λ e. cc)
  ]

  pub exists-Recorded :
      (db : State D) (args : List Bytes) → Recorded (codes "exists") args db (exec_exists D db args)
  unfolding exec_exists
  exists-Recorded db args = (inr refl, λ e. cc)

  pub flush_db-Recorded :
      (db : State D) (args : List Bytes)
      → Recorded (codes "flushdb") args db (exec_flush_db D db args)
  unfolding exec_flush_db add_aof flush
  flush_db-Recorded db args = (inl refl, λ e. cc)

  pub type-Recorded :
      (db : State D) (args : List Bytes) → Recorded (codes "type") args db (exec_type D db args)
  unfolding exec_type
  type-Recorded db args = ground arith

  pub rename-Recorded :
      (db : State D) (args : List Bytes) → Recorded (codes "rename") args db (exec_rename D db args)
  unfolding exec_rename add_aof
  rename-Recorded db args = ground arith

  pub rename_nx-Recorded :
      (db : State D) (args : List Bytes)
      → Recorded (codes "renamenx") args db (exec_rename_nx D db args)
  unfolding exec_rename_nx add_aof put_entity
  rename_nx-Recorded db [] = ground arith
  rename_nx-Recorded db (src ∷ []) = ground arith
  rename_nx-Recorded db (src ∷ dest ∷ rest) = ground (arith, removes-aof db 0 (src ∷ dest ∷ []))

  pub ping-Recorded :
      (db : State D) (args : List Bytes) → Recorded (codes "ping") args db (ping db args)
  unfolding ping
  ping-Recorded db args = ground arith
