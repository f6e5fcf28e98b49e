-- ===== src/Edge/Generations/Laws.antt =====
-- How the store of lib/edgecore/generation.go moves from one generation to the next.
use yu_feng.Base.{◌≡◌, ◌+◌, ◌<◌, some, ◌⊎◌, ◌↔◌, arith, eq_iff}
use yu_feng.Kernel.Generation.{AssetGeneration}
use yu_feng.Edge.Generations.{replace, admit}

-- The successor of a generation, for the same asset: the next number, or a signed rollback to a
-- smaller one; both name their parent, and `rollback_of` is the parent's number or, going on, zero.
pub record Follows (cur next : AssetGeneration) : Type 0 where
  pub asset : next.asset_id ≡ cur.asset_id
  pub parent : next.parent_generation_id ≡ cur.generation_id
  pub order :
      ((next.generation_seq ≡ cur.generation_seq + 1)
        × ((next.rollback_of ≡ 0) ⊎ (next.rollback_of ≡ cur.generation_seq)))
      ⊎ ((next.generation_seq < cur.generation_seq) × (next.rollback_of ≡ cur.generation_seq))

admit-replace : (cur next : AssetGeneration) → admit (some cur) next ≡ replace → Follows cur next
unfolding admit
admit-replace cur next h =
    ground
      (arith, eq_iff next.asset_id cur.asset_id, eq_iff next.parent_generation_id cur.generation_id)

-- The store replaces a generation exactly by one that follows it.
pub admit_iff : (cur next : AssetGeneration) → (admit (some cur) next ≡ replace) ↔ Follows cur next
unfolding admit
admit_iff cur next = (
  admit-replace cur next,
  λ f. ground (
    arith,
    eq_iff next.asset_id cur.asset_id,
    eq_iff next.parent_generation_id cur.generation_id,
  ),
)
