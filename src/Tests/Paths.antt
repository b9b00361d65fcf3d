-- ===== src/Tests/Paths.antt =====
-- The check of a START path.
use data_diode.Prelude.{true, false, ◌≡◌, refl, beq_bytes}
use data_diode.SafePath.{split, piece, body, front, components, all_normal, is_safe_rel_path}
use data_diode.SafePath.Pieces.{has_safe_pieces, is_safe_rel_path-has_safe_pieces}
use data_diode.Tests.Samples.{codes}

inner_dot : is_safe_rel_path (codes "a/./b") ≡ true
unfolding is_safe_rel_path components front split piece body all_normal beq_bytes
inner_dot = refl

parent : is_safe_rel_path (codes "a/../b") ≡ false
unfolding is_safe_rel_path components front split piece body all_normal beq_bytes
parent = refl

is_safe_rel_path-has_safe_pieces_example :
    is_safe_rel_path (codes "a/./b") ≡ has_safe_pieces (codes "a/./b")
is_safe_rel_path-has_safe_pieces_example = is_safe_rel_path-has_safe_pieces (codes "a/./b")
