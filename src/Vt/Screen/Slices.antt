-- ===== src/Vt/Screen/Slices.antt =====
-- What `std::fill` and `std::rotate` leave where.
use sshos.Base.{
  ℕ, ◌+◌, ◌-◌, ◌≤◌, ◌≡◌, ◌&&◌, List, ◌++◌, arith, length, get_or, take, drop, replicate,
  length-take, length-drop, length-append, length-replicate, leb, ltb, if◌then◌else◌,
}
use sshos.Base.Access.{get_or-take_if, get_or-drop, get_or-replicate_if, get_or-append_if}
use sshos.Vt.Screen.Scroll.{fill, rotate}

module _ {A : Type 0} where
  pub length-fill :
      (first last : ℕ) (a : A) (xs : List A)
      → first ≤ last
      → last ≤ length xs
      → length (fill first last a xs) ≡ length xs
  unfolding fill
  length-fill first last a xs h k = omega (
    arith,
    length-append (take first xs) (replicate (last - first) a ++ drop last xs),
    length-append (replicate (last - first) a) (drop last xs),
    length-take first xs,
    length-replicate (last - first) a,
    length-drop last xs,
  )

  pub get_or-fill :
      (first last : ℕ) (a : A) (xs : List A) (i : ℕ) (d : A)
      → first ≤ last
      → last ≤ length xs
      → get_or (fill first last a xs) i d ≡ (if leb first i && ltb i last then a else get_or xs i d)
  unfolding fill
  get_or-fill first last a xs i d h k =
      let body = replicate (last - first) a ++ drop last xs in
      ground (
        arith,
        get_or-append_if (take first xs) body i d,
        get_or-append_if (replicate (last - first) a) (drop last xs) (i - first) d,
        get_or-take_if first xs i d,
        get_or-replicate_if (last - first) a (i - first) d,
        get_or-drop last xs (i - first - (last - first)) d,
        length-take first xs,
        length-replicate (last - first) a,
      )

  pub length-rotate :
      (first cut last : ℕ) (xs : List A)
      → first ≤ cut
      → cut ≤ last
      → last ≤ length xs
      → length (rotate first cut last xs) ≡ length xs
  unfolding rotate
  length-rotate first cut last xs h k l =
      let late = take (last - cut) (drop cut xs) in
      let early = take (cut - first) (drop first xs) in
      omega (
        arith,
        length-append (take first xs) (late ++ (early ++ drop last xs)),
        length-append late (early ++ drop last xs),
        length-append early (drop last xs),
        length-take first xs,
        length-take (last - cut) (drop cut xs),
        length-take (cut - first) (drop first xs),
        length-drop first xs,
        length-drop cut xs,
        length-drop last xs,
      )

  -- The part behind the cut comes first, and the part before it stands behind.
  pub get_or-rotate :
      (first cut last : ℕ) (xs : List A) (i : ℕ) (d : A)
      → first ≤ cut
      → cut ≤ last
      → last ≤ length xs
      → get_or (rotate first cut last xs) i d ≡ (
          if leb first i && ltb i last
          then (if ltb i (first + (last - cut))
              then get_or xs (i + (cut - first)) d
              else get_or xs (i - (last - cut)) d)
          else get_or xs i d)
  unfolding rotate
  get_or-rotate first cut last xs i d h k l =
      let late = take (last - cut) (drop cut xs) in
      let early = take (cut - first) (drop first xs) in
      let n = last - cut in
      ground (
        arith,
        get_or-append_if (take first xs) (late ++ (early ++ drop last xs)) i d,
        get_or-append_if late (early ++ drop last xs) (i - first) d,
        get_or-append_if early (drop last xs) (i - first - n) d,
        get_or-take_if first xs i d,
        get_or-take_if n (drop cut xs) (i - first) d,
        get_or-take_if (cut - first) (drop first xs) (i - first - n) d,
        get_or-drop cut xs (i - first) d,
        get_or-drop first xs (i - first - n) d,
        get_or-drop last xs (i - first - n - (cut - first)) d,
        length-take first xs,
        length-take n (drop cut xs),
        length-take (cut - first) (drop first xs),
        length-drop first xs,
        length-drop cut xs,
      )
