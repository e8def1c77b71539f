-- ===== src/Gfxbuf/Tests.antt =====
-- Runs of the model of gfxbuf.c, and instances of its theorems.
use libbase.Base.{ℕ, ◌+◌, ◌/◌, true, ◌≡◌, refl, arith, Option, none, some}
use libbase.Memory.{Ptr, ok, fault, Cmd, pure, ◌>>=◌, Returns}
use libbase.Gfxbuf.{
  Pixels, Gfxbuf, Internal, pixel_ptr, create_unmanaged, create, clear, copy, copy_area, pixel_at,
  set_pixel, store,
}
use libbase.Gfxbuf.Paint.{painted}
use libbase.Gfxbuf.Area.{IsGfxbuf, HoldsArea}
use libbase.Gfxbuf.Clear.{clear-HoldsArea}
use libbase.Gfxbuf.Copy.{copy_area-HoldsArea, copy-copy_area}
use libbase.Gfxbuf.Create.{IsCreated, create-IsCreated}

-- Two by two pixels in lines of three, and three by two.
abbrev small : Gfxbuf
small = record { width = 2; height = 2; pixels_per_line = 3; data_ptr = 1 }

abbrev wide : Gfxbuf
wide = record { width = 3; height = 2; pixels_per_line = 3; data_ptr = 7 }

abbrev sevens : Pixels
sevens q = some 7

small-IsGfxbuf : IsGfxbuf small sevens
small-IsGfxbuf = record { fits = omega arith; small = omega arith; allocated = λ q e. refl }

wide-IsGfxbuf : IsGfxbuf wide sevens
wide-IsGfxbuf = record { fits = omega arith; small = omega arith; allocated = λ q e. refl }

clear-HoldsArea_example :
    Returns (λ u m'. HoldsArea small 0 0 2 2 (λ i j. some 9) sevens m') (clear small 9 sevens)
clear-HoldsArea_example = clear-HoldsArea small sevens 9 small-IsGfxbuf

-- The area is cut off at one column and one line.
copy_area-HoldsArea_example :
    Returns
      (λ u m'. HoldsArea small 1 1 1 1 (λ i j. sevens (pixel_ptr wide (1 + i) (0 + j))) sevens m')
      (copy_area small 1 1 wide 1 0 5 5 sevens)
copy_area-HoldsArea_example =
    copy_area-HoldsArea small wide sevens 1 1 1 0 5 5 small-IsGfxbuf wide-IsGfxbuf refl refl refl

abbrev other : Gfxbuf
other = record { width = 2; height = 2; pixels_per_line = 2; data_ptr = 13 }

copy-copy_area_example : copy small other ≡ copy_area small 0 0 other 0 0 2 2
copy-copy_area_example = copy-copy_area small other refl refl (omega arith) (omega arith)

-- An allocator with memory from the address 1 on.
abbrev zeroed : ℕ → Cmd Pixels (Option Ptr)
zeroed n m = ok (some 1) (painted m 1 (n / 4) (λ i. some 0))

abbrev forget : Ptr → Cmd Pixels (Unit {0})
forget p = pure tt

abbrev no_memory : Pixels
no_memory q = none

create-IsCreated_example : Returns (IsCreated 3 2) (create zeroed forget true 3 2 no_memory)
create-IsCreated_example =
    create-IsCreated zeroed forget 3 2 1 no_memory (painted no_memory 1 6 (λ i. some 0))
      (omega arith) refl (λ q e. rw e refl)

abbrev set_first : Option Internal → Cmd Pixels (Unit {0})
set_first none = pure tt
set_first (some g) = set_pixel g.public 0 0 7

-- A buffer of 2 ^ 15 by 2 ^ 15 pixels gets no memory at all, and its first pixel cannot be set.
create_overflow : (create zeroed forget true 32768 32768 >>= set_first) no_memory ≡ fault
unfolding create create_unmanaged set_pixel pixel_at pixel_ptr store
create_overflow = refl
