-- ===== src/Base/Trim.antt =====
-- `String.prototype.trim`: the white space and line terminators of ECMAScript are cut at both ends.
use Prim.Native.Nat.{ℕ}
use mathlib.Core.Bool.{Bool, true, false, ◌&&◌, ◌||◌}
use mathlib.Core.List.{[], ◌∷◌}
use event_relay.Base.Tests.{leb, ◌==◌, if◌then◌else◌}
use event_relay.Base.Texts.{Text}

abbrev pub is_space : ℕ → Bool
is_space c =
    (leb 9 c && leb c 13)
    || (c == 32
        || (c == 160
            || (c == 5760
                || ((leb 8192 c && leb c 8202)
                    || (c == 8232
                        || (c == 8233
                            || (c == 8239 || (c == 8287 || (c == 12288 || c == 65279)))))))))

abbrev pub trim_start : Text → Text
trim_start [] = []
trim_start (c ∷ s) = let rest = trim_start s in if is_space c then rest else c ∷ s

abbrev pub cons_unless : Bool → ℕ → Text → Text
cons_unless space c (d ∷ rest) = c ∷ d ∷ rest
cons_unless true c [] = []
cons_unless false c [] = c ∷ []

abbrev pub trim_end : Text → Text
trim_end [] = []
trim_end (c ∷ s) = cons_unless (is_space c) c (trim_end s)

unfoldable pub trim : Text → Text
trim s = trim_end (trim_start s)
