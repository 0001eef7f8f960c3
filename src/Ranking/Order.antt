-- ===== src/Ranking/Order.antt =====
-- The sort key of `rank_root_causes` in correlation/engine/ranking.py orders the nodes.
use abb_accelerator_aiops.Prelude.{
  ◌≡◌, refl, true, false, String, Option, none, some, arith, Dict, get,
}
use abb_accelerator_aiops.Float.{Float, neg}
use abb_accelerator_aiops.Float.Laws.{IsOrdered, lt_asym, not-lt_trans}
use abb_accelerator_aiops.Ranking.{DiGraph, onset_lt, ranks_before}

module _ {F : Type 0} ⦃f : Float F⦄ (o : IsOrdered F) (nx : DiGraph F) where
  onset_lt_asym : (a b : Option F) → onset_lt nx a b ≡ true → onset_lt nx b a ≡ false
  unfolding onset_lt
  onset_lt_asym (some a) (some b) h = lt_asym o a b h
  onset_lt_asym (some a) none h = refl
  onset_lt_asym none b h = cc

  onset_lt_trans :
      (a b c : Option F)
      → onset_lt nx b a ≡ false
      → onset_lt nx c b ≡ false
      → onset_lt nx c a ≡ false
  unfolding onset_lt
  onset_lt_trans (some a) (some b) (some c) h k = not-lt_trans o a b c h k
  onset_lt_trans a b none h k = refl
  onset_lt_trans none none (some c) h k = cc
  onset_lt_trans none (some b) (some c) h k = cc
  onset_lt_trans (some a) none (some c) h k = cc

  module _ (onset_s : Dict F) where
    pub ranks_before_asym :
        (x y : String × F)
        → ranks_before nx onset_s x y ≡ true
        → ranks_before nx onset_s y x ≡ false
    unfolding ranks_before
    ranks_before_asym (p, a) (q, b) h =
        ground (arith, lt_asym o (neg a) (neg b), onset_lt_asym (get p onset_s) (get q onset_s))

    pub ranks_before_trans :
        (x y z : String × F)
        → ranks_before nx onset_s y x ≡ false
        → ranks_before nx onset_s z y ≡ false
        → ranks_before nx onset_s z x ≡ false
    unfolding ranks_before
    ranks_before_trans (p, a) (q, b) (r, c) h k = ground (
      arith,
      not-lt_trans o (neg a) (neg b) (neg c),
      not-lt_trans o (neg c) (neg a) (neg b),
      not-lt_trans o (neg b) (neg c) (neg a),
      onset_lt_trans (get p onset_s) (get q onset_s) (get r onset_s),
    )
