-- ===== src/Dirents/Packing.antt =====
-- src/filesystem/FD.cc: the records of GetDents and GetDents64 fit the buffer, and calls one after
-- the other list the directory once through.
use lbw.Prelude.{
  ℕ, ◌+◌, ◌-◌, ◌%◌, ◌^◌, ◌≤◌, ◌<◌, ◌≡◌, refl, List, [], ◌∷◌, ◌++◌, Option, none, some, length, drop,
  ltb, arith, Bool-cases, drop-drop, length-drop, Option-cases, ltb→lt, ltb-false→le, suc, inl, inr,
  ap,
}
use lbw.Prelude.Results.{ok}
use lbw.MemOp.{align_up}
use native.Mathlib.Nat.{pow-le-pow_right}
use lbw.MemOp.Laws.{align_up_lem}
use lbw.Dirents.{
  Format, Stat, Dirent, DirData, Written, record_length, dirent, add_record, pack, get_dents,
}

-- The bytes that some names take.
abbrev pub total : Format → List Dirent → ℕ
total f [] = 0
total f (d ∷ ds) = record_length f d.d_name + total f ds

module _ (f : Format) (stat : List ℕ → Option Stat) where
  -- The entries that can be examined, each with its record, from a position on.
  abbrev pub listing : ℕ → List (List ℕ) → List Dirent
  listing pos [] = []
  listing pos (name ∷ rest) = elim (stat name) [
    | some st ↦ dirent f name st pos ∷ listing (pos + 1) rest
    | none ↦ listing (pos + 1) rest
  ]

  -- A call stops at the end of the directory, or at an entry for which the buffer has no room.
  abbrev pub Stops : ℕ → List (List ℕ) → Type 0
  Stops room [] = Unit
  Stops room (name ∷ rest) = (st : Stat) × (stat name ≡ some st) × (room < record_length f name)

  -- What one run of the loop writes.
  pub record IsPacked (room pos : ℕ) (rest : List (List ℕ)) (w : Written) : Type 0 where
    pub fits : w.bytes ≤ room
    pub sum : w.bytes ≡ total f w.records
    pub forward : pos ≤ w.at
    pub within : w.at ≤ pos + length rest
    pub stops : Stops (room - w.bytes) (drop (w.at - pos) rest)
    pub goes_on : w.records ++ listing w.at (drop (w.at - pos) rest) ≡ listing pos rest

  stopped :
      (room pos : ℕ) (rest : List (List ℕ))
      → Stops room rest
      → IsPacked room pos rest (record { records = []; bytes = 0; at = pos })
  stopped room pos rest h =
      let here : pos - pos ≡ 0 = omega arith in
      let all : room - 0 ≡ room = omega arith in
      record {
        fits = omega arith;
        sum = refl;
        forward = omega arith;
        within = omega arith;
        stops = rw (here, all) h;
        goes_on = rw here;
      }

  later : (pos at : ℕ) → pos + 1 ≤ at → at - pos ≡ suc (at - (pos + 1))
  later pos at h = omega arith

  passed :
      (room pos : ℕ) (name : List ℕ) (rest : List (List ℕ)) (w : Written)
      → stat name ≡ none
      → IsPacked room (pos + 1) rest w
      → IsPacked room pos (name ∷ rest) w
  passed room pos name rest w e p =
      let on = later pos w.at p.forward in
      record {
        fits = p.fits;
        sum = p.sum;
        forward = omega (arith, p.forward);
        within = omega (arith, p.within);
        stops = rw on p.stops;
        goes_on = rw (on, e, listing) p.goes_on;
      }

  taken :
      (room pos : ℕ) (name : List ℕ) (rest : List (List ℕ)) (st : Stat) (w : Written)
      → stat name ≡ some st
      → record_length f name ≤ room
      → IsPacked (room - record_length f name) (pos + 1) rest w
      → IsPacked room pos (name ∷ rest) (add_record (dirent f name st pos) (record_length f name) w)
  taken room pos name rest st w e h p =
      let on = later pos w.at p.forward in
      let left : room - (record_length f name + w.bytes) ≡ room - record_length f name - w.bytes =
        omega arith in
      record {
        fits = omega (arith, p.fits);
        sum = omega (arith, p.sum);
        forward = omega (arith, p.forward);
        within = omega (arith, p.within);
        stops = rw (on, left) p.stops;
        goes_on = rw (on, e, listing) (ap (◌∷◌ (dirent f name st pos)) p.goes_on);
      }

  pack-IsPacked :
      (room pos : ℕ) (rest : List (List ℕ)) → IsPacked room pos rest (pack f stat room pos rest)
  unfolding pack
  pack-IsPacked room pos [] = stopped room pos [] tt
  pack-IsPacked room pos (name ∷ rest) = elim (Option-cases (stat name)) [
    | inl e ↦ rw (e, pack) (passed room pos name rest _ e (pack-IsPacked room (pos + 1) rest))
    | inr (st, e) ↦ elim (Bool-cases (ltb room (record_length f name))) [
      | inl full ↦ rw (e, pack, full) (stopped room pos (name ∷ rest) (st, e, ltb→lt _ _ full))
      | inr more ↦
          rw (e, pack, more)
            (taken room pos name rest st _ e (ltb-false→le _ _ more)
              (pack-IsPacked (room - record_length f name) (pos + 1) rest))
    ]
  ]

  -- A call on a directory, whose stream stands within it, writes no more bytes than the buffer has
  -- room for, moves the stream forward within the directory, and stops only at its end or at an
  -- entry for which no room is left; what it wrote and what the next calls will list is, in order,
  -- every entry from the old position on that can be examined, each once and with its own record.
  pub get_dents_lem :
      (d : DirData) (count : ℕ)
      → d.pos ≤ length d.contents
      → (w : Written) × (d' : DirData) × (get_dents f stat (some d) count ≡ ok (w, d'))
        × (w.bytes ≤ count)
        × (w.bytes ≡ total f w.records)
        × (d.pos ≤ d'.pos)
        × (d'.pos ≤ length d.contents)
        × (d'.contents ≡ d.contents)
        × Stops (count - w.bytes) (drop d'.pos d.contents)
        × (w.records ++ listing d'.pos (drop d'.pos d'.contents)
            ≡ listing d.pos (drop d.pos d.contents))
  unfolding get_dents
  get_dents_lem d count h =
      let w = pack f stat count d.pos (drop d.pos d.contents) in
      let p = pack-IsPacked count d.pos (drop d.pos d.contents) in
      let rest = drop-drop d.pos w.at d.contents p.forward in
      (
        w,
        record d { pos = w.at },
        refl,
        p.fits,
        p.sum,
        p.forward,
        omega (arith, p.within, length-drop d.pos d.contents),
        refl,
        rw rest at p.stops,
        rw rest at p.goes_on,
      )

-- With an alignment of 2 ^ k and names of at most 255 bytes, a record's length is a multiple of the
-- alignment, has room for the fixed part, the name and its end, and is less than one alignment more;
-- the 16 bits of d_reclen hold it.
record_length_lem :
    (f : Format) (k : ℕ) (name : List ℕ)
    → f.align_mask ≡ 2 ^ k - 1
    → k ≤ 3
    → f.size ≤ 19
    → length name ≤ 255
    → (record_length f name % 2 ^ k ≡ 0)
      × (f.size + length name + 1 ≤ record_length f name)
      × (record_length f name < f.size + length name + 1 + 2 ^ k)
      × (record_length f name < 0x1_0000)
unfolding record_length align_up
record_length_lem f k name e hk hs hn =
    let power : 2 ^ k ≤ 2 ^ 3 = pow-le-pow_right (omega arith) hk in
    let up = align_up_lem k (f.size + length name + 1) (omega arith) (omega (arith, power)) in
    rw e (up.2, up.0, up.1, omega (arith, up.1, power))
