-- ===== src/Disk/Laws.antt =====
-- Sizes of files.
use dmz_collector.Base.{◌+◌, ◌<◌, String, List, [], ◌∷◌, ◌++◌, ◌≡◌, refl, arith, all, ◌&&◌}
use dmz_collector.Disk.{size_of, fits}

pub size_of-append : (ls ms : List String) → size_of (ls ++ ms) ≡ size_of ls + size_of ms
unfolding size_of
size_of-append [] ms = omega arith
size_of-append (l ∷ ls) ms = omega (arith, size_of-append ls ms)

pub size_of-append_line : (ls : List String) (l : String) → size_of ls < size_of (ls ++ l ∷ [])
unfolding size_of
size_of-append_line ls l = omega (arith, size_of-append ls (l ∷ []))

pub all-fits-append : (ls ms : List String) → all fits (ls ++ ms) ≡ (all fits ls && all fits ms)
all-fits-append [] ms = refl
all-fits-append (l ∷ ls) ms = ground (arith, all-fits-append ls ms)
