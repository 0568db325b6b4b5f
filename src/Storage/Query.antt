-- ===== src/Storage/Query.antt =====
-- ReadFiltered of internal/storage/jsonl.go against its specification.
use dmz_collector.Base.{
  ℕ, suc, ◌-◌, ◌≤◌, ◌<◌, String, true, List, [], ◌∷◌, ◌++◌, none, some, ◌≡◌, refl, sym, ap, ◌∙◌,
  arith, length, drop, keep, length-append, append_assoc, append-nil, all, Bool-cases, Option-cases,
  inl, inr, if◌then◌else◌, ltb,
}
use dmz_collector.Event.{Platform, Event}
use dmz_collector.Disk.{Codec, File, lines_of, fits}
use dmz_collector.Storage.{
  EventQuery, matches, read_line, collect, collect_all, limit_of, read_filtered, read_all,
}

module _ {ℓ} {A : Type ℓ} where
  -- The last `n` elements of a list.
  abbrev pub last : ℕ → List A → List A
  last n xs = drop (length xs - n) xs

  last_drop :
      (n : ℕ) (x : A) (xs ys : List A) → n ≤ length xs → last n ((x ∷ xs) ++ ys) ≡ last n (xs ++ ys)
  last_drop n x xs ys h =
      let e : suc (length (xs ++ ys)) - n ≡ suc (length (xs ++ ys) - n) =
        omega (arith, length-append xs ys) in
      ap (λ k. drop k (x ∷ (xs ++ ys))) e

  -- A window of at most `n` elements, the oldest let go when it has grown too long.
  abbrev slide : ℕ → List A → List A
  slide n longer = if ltb n (length longer) then drop 1 longer else longer

  last-slide :
      (n : ℕ) (x : A) (xs ys : List A)
      → length xs ≤ n
      → (last n (slide n (x ∷ xs) ++ ys) ≡ last n ((x ∷ xs) ++ ys))
        × (length (slide n (x ∷ xs)) ≤ n)
  last-slide n x xs ys h = elim (Bool-cases (ltb n (suc (length xs)))) [
    | inl full ↦ rw full (sym (last_drop n x xs ys (ground arith)), h)
    | inr room ↦ rw room (refl, ground arith)
  ]

  last-slide_append :
      (n : ℕ) (out : List A) (x : A) (ys : List A)
      → length out ≤ n
      → (last n (slide n (out ++ x ∷ []) ++ ys) ≡ last n (out ++ x ∷ ys))
        × (length (slide n (out ++ x ∷ [])) ≤ n)
  last-slide_append n [] x ys h = last-slide n x [] ys h
  last-slide_append n (o ∷ out) x ys h =
      let (same, short) =
        last-slide n o (out ++ x ∷ []) ys (omega (arith, length-append out (x ∷ []))) in
      (same ∙ ap (λ l. last n (o ∷ l)) (append_assoc out (x ∷ []) ys), short)

  last_all : (n : ℕ) (xs : List A) → length xs ≤ n → last n xs ≡ xs
  last_all n xs h = let e : length xs - n ≡ 0 = omega arith in ap (λ k. drop k xs) e

module _ (c : Codec) (p : Platform) (now : String) where
  collect_all-last :
      (limit : ℕ) (q : EventQuery) (out : List Event) (ls : List String)
      → length out ≤ limit
      → collect_all c p now limit q out ls
        ≡ last limit (out ++ keep (λ e. matches c e q) (read_all c p now ls))
  unfolding collect_all collect read_all
  collect_all-last limit q out [] h = sym (ap (last limit) (append-nil out) ∙ last_all limit out h)
  collect_all-last limit q out (l ∷ ls) h = elim (Option-cases (read_line c p now l)) [
    | inl unread ↦ rw (unread, collect, read_all) (collect_all-last limit q out ls h)
    | inr (e, read) ↦ elim (Bool-cases (matches c e q)) [
      | inl hit ↦
          rw (read, collect, read_all, hit)
            (let (same, short) =
                last-slide_append limit out e (keep (λ x. matches c x q) (read_all c p now ls)) h in
              collect_all-last limit q (slide limit (out ++ e ∷ [])) ls short ∙ same)
      | inr miss ↦ rw (read, collect, read_all, miss) (collect_all-last limit q out ls h)
    ]
  ]

  limit_of-pos : (q : EventQuery) → 0 < limit_of q
  unfolding limit_of
  limit_of-pos q = ground arith

  -- A query of a readable store whose lines all fit the scanner gives the last events that match
  -- it, in the order of the file, as many as the limit says (100, where it says none).
  pub read_filtered_lem :
      (f : File) (q : EventQuery)
      → all fits (lines_of f) ≡ true
      → read_filtered c p now true f q
        ≡ some (last (limit_of q) (keep (λ e. matches c e q) (read_all c p now (lines_of f))))
  unfolding read_filtered read_all
  read_filtered_lem none q h = ap some (sym (last_all (limit_of q) [] (omega arith)))
  read_filtered_lem (some ls) q h =
      rw h (ap some (collect_all-last (limit_of q) q [] ls (omega arith)))
