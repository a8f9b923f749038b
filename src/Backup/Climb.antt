-- ===== src/Backup/Climb.antt =====
-- The search for a folder above a path ends at one.
use runvard.Base.{
  ℕ, zero, suc, ◌≤◌, ◌<◌, String, ◌≡◌, ◌⊎◌, inl, inr, true, false, ◌==◌, Bool-cases, arith,
  text_length,
}
use runvard.Backup.{Paths, Disk, climb, existing_ancestor}

module _ (P : Paths) (disk : Disk) where
  -- Where the search may stop: at what exists, or at a path without a parent.
  abbrev pub IsEnd : String → Type 0
  IsEnd path = (disk.exists path ≡ true) ⊎ ((P.dirname path == path) ≡ true)

  climb-IsEnd :
      ((path : String)
        → (P.dirname path == path) ≡ false
        → text_length (P.dirname path) < text_length path)
      → (fuel : ℕ) (path : String) → text_length path ≤ fuel
      → IsEnd (climb P disk fuel path)
  unfolding climb
  climb-IsEnd shrinks zero path room = elim (Bool-cases (P.dirname path == path)) [
    | inl e ↦ inr e
    | inr e ↦ absurd (omega (arith, shrinks path e))
  ]
  climb-IsEnd shrinks (suc fuel) path room = elim (Bool-cases (disk.exists path)) [
    | inl here ↦ rw (here) (inl here)
    | inr gone ↦ elim (Bool-cases (P.dirname path == path)) [
      | inl top ↦ rw (gone, top) (inr top)
      | inr e ↦
          rw (gone, e) (climb-IsEnd shrinks fuel (P.dirname path) (omega (arith, shrinks path e)))
    ]
  ]

  -- The search for an existing folder above a path ends: at something that exists, or at a path that is
  -- its own parent. It is assumed that any other path is longer than its parent.
  pub existing_ancestor-IsEnd :
      ((path : String)
        → (P.dirname path == path) ≡ false
        → text_length (P.dirname path) < text_length path)
      → (path : String) → IsEnd (existing_ancestor P disk path)
  unfolding existing_ancestor
  existing_ancestor-IsEnd shrinks path =
      climb-IsEnd shrinks (text_length (P.real path)) (P.real path) (omega arith)
