-- ===== src/Benchmark/PhoneCalls.antt =====
-- The calls that voter simulates (examples/voter/phonecall_generator.go). The draws of math/rand are
-- arguments; `none` is a panic.
use mathlib.Core.Option
use voltdb_client_go.Common.{
  ℕ, suc, ◌+◌, ◌*◌, ◌%◌, ◌==◌, ltb, leb, if◌then◌else◌, ℤ, pos, Option, none, some, List, [], ◌∷◌,
  length, get_elem?,
}
use voltdb_client_go.Word.{w32, wrap, unsigned}
use voltdb_client_go.Benchmark.Payload.{intn}

-- What init makes of areaCodeStrs.
unfoldable pub area_code : List ℕ
area_code =
    907 ∷ 205 ∷ 256 ∷ 334 ∷ 251 ∷ 870 ∷ 501 ∷ 479 ∷ 480 ∷ 602 ∷ 623 ∷ 928 ∷ 520 ∷ 341 ∷ 764 ∷ 628
    ∷ 831 ∷ 925 ∷ 909 ∷ 562 ∷ 661 ∷ 510 ∷ 650 ∷ 949 ∷ 760 ∷ 415 ∷ 951 ∷ 209 ∷ 669 ∷ 408 ∷ 559 ∷ 626
    ∷ 442 ∷ 530 ∷ 916 ∷ 627 ∷ 714 ∷ 707 ∷ 310 ∷ 323 ∷ 213 ∷ 424 ∷ 747 ∷ 818 ∷ 858 ∷ 935 ∷ 619 ∷ 805
    ∷ 369 ∷ 720 ∷ 303 ∷ 970 ∷ 719 ∷ 860 ∷ 203 ∷ 959 ∷ 475 ∷ 202 ∷ 302 ∷ 689 ∷ 407 ∷ 239 ∷ 850 ∷ 727
    ∷ 321 ∷ 754 ∷ 954 ∷ 927 ∷ 352 ∷ 863 ∷ 386 ∷ 904 ∷ 561 ∷ 772 ∷ 786 ∷ 305 ∷ 941 ∷ 813 ∷ 478 ∷ 770
    ∷ 470 ∷ 404 ∷ 762 ∷ 706 ∷ 678 ∷ 912 ∷ 229 ∷ 808 ∷ 515 ∷ 319 ∷ 563 ∷ 641 ∷ 712 ∷ 208 ∷ 217 ∷ 872
    ∷ 312 ∷ 773 ∷ 464 ∷ 708 ∷ 224 ∷ 847 ∷ 779 ∷ 815 ∷ 618 ∷ 309 ∷ 331 ∷ 630 ∷ 317 ∷ 765 ∷ 574 ∷ 260
    ∷ 219 ∷ 812 ∷ 913 ∷ 785 ∷ 316 ∷ 620 ∷ 606 ∷ 859 ∷ 502 ∷ 270 ∷ 504 ∷ 985 ∷ 225 ∷ 318 ∷ 337 ∷ 774
    ∷ 508 ∷ 339 ∷ 781 ∷ 857 ∷ 617 ∷ 978 ∷ 351 ∷ 413 ∷ 443 ∷ 410 ∷ 301 ∷ 240 ∷ 207 ∷ 517 ∷ 810 ∷ 278
    ∷ 679 ∷ 313 ∷ 586 ∷ 947 ∷ 248 ∷ 734 ∷ 269 ∷ 989 ∷ 906 ∷ 616 ∷ 231 ∷ 612 ∷ 320 ∷ 651 ∷ 763 ∷ 952
    ∷ 218 ∷ 507 ∷ 636 ∷ 660 ∷ 975 ∷ 816 ∷ 573 ∷ 314 ∷ 557 ∷ 417 ∷ 769 ∷ 601 ∷ 662 ∷ 228 ∷ 406 ∷ 336
    ∷ 252 ∷ 984 ∷ 919 ∷ 980 ∷ 910 ∷ 828 ∷ 704 ∷ 701 ∷ 402 ∷ 308 ∷ 603 ∷ 908 ∷ 848 ∷ 732 ∷ 551 ∷ 201
    ∷ 862 ∷ 973 ∷ 609 ∷ 856 ∷ 575 ∷ 957 ∷ 505 ∷ 775 ∷ 702 ∷ 315 ∷ 518 ∷ 646 ∷ 347 ∷ 212 ∷ 718 ∷ 516
    ∷ 917 ∷ 845 ∷ 631 ∷ 716 ∷ 585 ∷ 607 ∷ 914 ∷ 216 ∷ 330 ∷ 234 ∷ 567 ∷ 419 ∷ 440 ∷ 380 ∷ 740 ∷ 614
    ∷ 283 ∷ 513 ∷ 937 ∷ 918 ∷ 580 ∷ 405 ∷ 503 ∷ 541 ∷ 971 ∷ 814 ∷ 717 ∷ 570 ∷ 878 ∷ 835 ∷ 484 ∷ 610
    ∷ 267 ∷ 215 ∷ 724 ∷ 412 ∷ 401 ∷ 843 ∷ 864 ∷ 803 ∷ 605 ∷ 423 ∷ 865 ∷ 931 ∷ 615 ∷ 901 ∷ 731 ∷ 254
    ∷ 325 ∷ 713 ∷ 940 ∷ 817 ∷ 430 ∷ 903 ∷ 806 ∷ 737 ∷ 512 ∷ 361 ∷ 210 ∷ 979 ∷ 936 ∷ 409 ∷ 972 ∷ 469
    ∷ 214 ∷ 682 ∷ 832 ∷ 281 ∷ 830 ∷ 956 ∷ 432 ∷ 915 ∷ 435 ∷ 801 ∷ 385 ∷ 434 ∷ 804 ∷ 757 ∷ 703 ∷ 571
    ∷ 276 ∷ 236 ∷ 540 ∷ 802 ∷ 509 ∷ 360 ∷ 564 ∷ 206 ∷ 425 ∷ 253 ∷ 715 ∷ 920 ∷ 262 ∷ 414 ∷ 608 ∷ 304
    ∷ 307 ∷ []

pub record PhoneCallGenerator : Type 0 where
  pub contestant_count : ℤ
  pub voting_map : List ℤ

-- `int32(product % uint32(contestantCount))`
unfoldable pub sine_entry : ℤ → ℕ → Option ℤ
sine_entry contestant_count product =
    if unsigned w32 contestant_count == 0
    then none
    else some (wrap w32 (pos (product % unsigned w32 contestant_count)))

unfoldable pub map_entry : ℤ → ℕ → ℕ → Option ℤ
unfolding sine_entry
map_entry contestant_count product draw =
    if leb 30 (draw % 100) then sine_entry contestant_count product else some (pos 1)

unfoldable pub prepend_entry : Option ℤ → Option (List ℤ) → Option (List ℤ)
prepend_entry none o = none
prepend_entry (some v) none = none
prepend_entry (some v) (some vs) = some (v ∷ vs)

-- The five draws of a call.
pub record CallDraws : Type 0 where
  pub area : ℕ
  pub coin : ℕ
  pub contestant : ℕ
  pub fraud : ℕ
  pub number : ℕ

-- A contestant number: the one of the area, or one at random.
unfoldable pub pick : ℤ → CallDraws → ℤ → Option ℤ
unfolding intn
pick contestant_count d mapped =
    if ltb 0 (d.coin % 2)
    then Option.map (λ n. wrap w32 (pos (n + 1))) (intn contestant_count d.contestant)
    else some mapped

unfoldable pub falsify : CallDraws → ℤ → ℤ
falsify d contestant_number = if d.fraud % 100 == 0 then pos 999 else contestant_number

unfoldable pub build : CallDraws → ℕ → Option ℤ → Option (ℤ × ℕ)
unfolding falsify
build d code none = none
build d code (some c) = some (falsify d c, code * 10000000 + d.number % 10000000)

-- The call for what stands in the map and in the list of the area codes.
unfoldable pub receive_from : ℤ → CallDraws → Option ℤ → Option ℕ → Option (ℤ × ℕ)
unfolding pick build
receive_from contestant_count d none o = none
receive_from contestant_count d (some mapped) none = none
receive_from contestant_count d (some mapped) (some code) =
    build d code (pick contestant_count d mapped)

unfoldable pub receive : PhoneCallGenerator → CallDraws → Option (ℤ × ℕ)
unfolding receive_from
receive pcg d =
    let i = d.area % length area_code in
    receive_from pcg.contestant_count d (get_elem? pcg.voting_map i) (get_elem? area_code i)

-- `sine_product i n` is uint32(math.Sin(float64(i)) * float64(n)).
module _ (sine_product : ℕ → ℤ → ℕ) where
  unfoldable pub fill_map : ℤ → (ℕ → ℕ) → ℕ → List ℕ → Option (List ℤ)
  unfolding prepend_entry map_entry
  fill_map contestant_count draws i [] = some []
  fill_map contestant_count draws i (c ∷ cs) =
      prepend_entry (map_entry contestant_count (sine_product i contestant_count) (draws i))
        (fill_map contestant_count draws (suc i) cs)

  unfoldable pub new_phone_call_generator : ℤ → (ℕ → ℕ) → Option PhoneCallGenerator
  unfolding fill_map
  new_phone_call_generator contestant_count draws =
      Option.map (λ m. record { contestant_count = wrap w32 contestant_count; voting_map = m })
        (fill_map contestant_count draws 0 area_code)
