-- ===== src/Allocman/Depth.antt =====
-- The depths of libsel4allocman/src/allocman.c, counted up around a call of an allocator and down again.
use se_l4_libs.Prelude.{ℕ, ◌<◌, ◌≡◌, ap, arith, add_size, sub_size}
use se_l4_libs.Allocman.Defs.{
  Space, Depths, alloc_depth, free_depth, set_alloc_depth, set_free_depth,
}
use se_l4_libs.Allocman.Kept.{IsWords}

-- The depths up and down.
up_down : (n : ℕ) → n < 18446744073709551616 → sub_size (add_size n 1) 1 ≡ n
up_down n h = omega arith

up_word : (n : ℕ) → add_size n 1 < 18446744073709551616
up_word n = omega arith

pub alloc_up_down :
    (s : Space) (d : Depths)
    → IsWords d
    → set_alloc_depth s
        (sub_size (alloc_depth s (set_alloc_depth s (add_size (alloc_depth s d) 1) d)) 1)
        (set_alloc_depth s (add_size (alloc_depth s d) 1) d)
      ≡ d
alloc_up_down Space.mspace d w =
    ap (λ n. record d { mspace_alloc_depth = n })
      (up_down d.mspace_alloc_depth (w.alloc_word Space.mspace))
alloc_up_down Space.cspace d w =
    ap (λ n. record d { cspace_alloc_depth = n })
      (up_down d.cspace_alloc_depth (w.alloc_word Space.cspace))
alloc_up_down Space.utspace d w =
    ap (λ n. record d { utspace_alloc_depth = n })
      (up_down d.utspace_alloc_depth (w.alloc_word Space.utspace))

pub free_up_down :
    (s : Space) (d : Depths)
    → IsWords d
    → set_free_depth s
        (sub_size (free_depth s (set_free_depth s (add_size (free_depth s d) 1) d)) 1)
        (set_free_depth s (add_size (free_depth s d) 1) d)
      ≡ d
free_up_down Space.mspace d w =
    ap (λ n. record d { mspace_free_depth = n })
      (up_down d.mspace_free_depth (w.free_word Space.mspace))
free_up_down Space.cspace d w =
    ap (λ n. record d { cspace_free_depth = n })
      (up_down d.cspace_free_depth (w.free_word Space.cspace))
free_up_down Space.utspace d w =
    ap (λ n. record d { utspace_free_depth = n })
      (up_down d.utspace_free_depth (w.free_word Space.utspace))

pub alloc_up-IsWords :
    (s : Space) (d : Depths)
    → IsWords d
    → IsWords (set_alloc_depth s (add_size (alloc_depth s d) 1) d)
alloc_up-IsWords s d w = record { alloc_word = word s; free_word = kept s }
  where
    word :
        (s r : Space)
        → alloc_depth r (set_alloc_depth s (add_size (alloc_depth s d) 1) d) < 18446744073709551616
    word Space.mspace Space.mspace = up_word d.mspace_alloc_depth
    word Space.mspace Space.cspace = w.alloc_word Space.cspace
    word Space.mspace Space.utspace = w.alloc_word Space.utspace
    word Space.cspace Space.mspace = w.alloc_word Space.mspace
    word Space.cspace Space.cspace = up_word d.cspace_alloc_depth
    word Space.cspace Space.utspace = w.alloc_word Space.utspace
    word Space.utspace Space.mspace = w.alloc_word Space.mspace
    word Space.utspace Space.cspace = w.alloc_word Space.cspace
    word Space.utspace Space.utspace = up_word d.utspace_alloc_depth

    kept :
        (s r : Space)
        → free_depth r (set_alloc_depth s (add_size (alloc_depth s d) 1) d) < 18446744073709551616
    kept Space.mspace Space.mspace = w.free_word Space.mspace
    kept Space.mspace Space.cspace = w.free_word Space.cspace
    kept Space.mspace Space.utspace = w.free_word Space.utspace
    kept Space.cspace Space.mspace = w.free_word Space.mspace
    kept Space.cspace Space.cspace = w.free_word Space.cspace
    kept Space.cspace Space.utspace = w.free_word Space.utspace
    kept Space.utspace Space.mspace = w.free_word Space.mspace
    kept Space.utspace Space.cspace = w.free_word Space.cspace
    kept Space.utspace Space.utspace = w.free_word Space.utspace

pub free_up-IsWords :
    (s : Space) (d : Depths)
    → IsWords d
    → IsWords (set_free_depth s (add_size (free_depth s d) 1) d)
free_up-IsWords s d w = record { alloc_word = kept s; free_word = word s }
  where
    word :
        (s r : Space)
        → free_depth r (set_free_depth s (add_size (free_depth s d) 1) d) < 18446744073709551616
    word Space.mspace Space.mspace = up_word d.mspace_free_depth
    word Space.mspace Space.cspace = w.free_word Space.cspace
    word Space.mspace Space.utspace = w.free_word Space.utspace
    word Space.cspace Space.mspace = w.free_word Space.mspace
    word Space.cspace Space.cspace = up_word d.cspace_free_depth
    word Space.cspace Space.utspace = w.free_word Space.utspace
    word Space.utspace Space.mspace = w.free_word Space.mspace
    word Space.utspace Space.cspace = w.free_word Space.cspace
    word Space.utspace Space.utspace = up_word d.utspace_free_depth

    kept :
        (s r : Space)
        → alloc_depth r (set_free_depth s (add_size (free_depth s d) 1) d) < 18446744073709551616
    kept Space.mspace Space.mspace = w.alloc_word Space.mspace
    kept Space.mspace Space.cspace = w.alloc_word Space.cspace
    kept Space.mspace Space.utspace = w.alloc_word Space.utspace
    kept Space.cspace Space.mspace = w.alloc_word Space.mspace
    kept Space.cspace Space.cspace = w.alloc_word Space.cspace
    kept Space.cspace Space.utspace = w.alloc_word Space.utspace
    kept Space.utspace Space.mspace = w.alloc_word Space.mspace
    kept Space.utspace Space.cspace = w.alloc_word Space.cspace
    kept Space.utspace Space.utspace = w.alloc_word Space.utspace
