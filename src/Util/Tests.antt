-- ===== src/Util/Tests.antt =====
-- Numbers and patterns.
use nohost_server.Base.{◌≡◌, refl, false, codes, arith}
use nohost_server.Base.Int.{pos, negsuc, print_nat, all_digits}
use nohost_server.Util.{atop, prefix, is_star}
use nohost_server.Util.Laws.{atop-reads, CanRaise}

atop-reads_example : (atop (print_nat 407) ≡ pos 407) × (atop (codes "4x") ≡ negsuc 0)
unfolding all_digits
atop-reads_example = atop-reads 407 (codes "4x") (omega arith) refl

can_raise : CanRaise (prefix (codes "ab*"))
unfolding prefix
can_raise e = ground arith

no_star : is_star (codes "ab*") ≡ false
unfolding is_star
no_star = refl
