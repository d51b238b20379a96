-- ===== src/Web/Counts.antt =====
-- The three counters, the limit on connections, and the descriptors.
use network_program.Prelude.{
  ℕ, zero, suc, ◌+◌, ◌-◌, ◌≤◌, ◌<◌, ◌≡◌, refl, sym, ap, false, Bool-cases, inl, inr, ◌&&◌, ◌||◌,
  Option, none, some, List, [], ◌∷◌, min, replicate, arith, ltb, if◌then◌else◌,
}
use network_program.Sys.{ReadResult, got, failed, done, exits, Ensures, Ensures-bind, Readable}
use network_program.Web.Starting.{
  fresh_one, open_one, Starts, AllStart, Works, write_get_cmd-IsOpen, start_connect-IsOpen,
}
use network_program.Web.{
  fd_setsize, Start, Flags, untouched, connecting, reading, finished, File, Sets, Web, Event,
  Served, Scanned, init, max_files, start_connect, write_get_cmd, clear_bit, is_untouched,
  replace_first, start_one, fill, serve, scan, round,
}

abbrev pub fresh : List File → ℕ
fresh [] = 0
fresh (f ∷ fs) = fresh_one f.flags + fresh fs

abbrev pub opened : List File → ℕ
opened [] = 0
opened (f ∷ fs) = open_one f.flags + opened fs

-- Every descriptor has a bit in the sets.
abbrev pub AllInside : List File → Type 0
AllInside [] = Unit
AllInside (f ∷ fs) = (f.fd < fd_setsize) × AllInside fs

-- The counters say what their comments in the code promise.
pub record IsCounted (maxnconn : ℕ) (w : Web) : Type 0 where
  pub conns : w.nconn ≡ opened w.files
  pub to_conn : w.nlefttoconn ≡ fresh w.files
  pub to_read : w.nlefttoread ≡ fresh w.files + opened w.files
  pub limited : w.nconn ≤ maxnconn
  pub inside : AllInside w.files

-- After the inner loop there is a connection to wait for, as long as a file is left to read.
pub record IsFilled (maxnconn : ℕ) (w : Web) : Type 0 where
  pub counted : IsCounted maxnconn w
  pub busy : 0 < maxnconn → 0 < w.nlefttoread → 0 < opened w.files

pub record Replaced (g : File) (fs : List File) (o : Option (List File)) : Type 0 where
  pub files : List File
  pub ran : o ≡ some files
  pub fewer : fresh fs ≡ fresh files + 1
  pub more : opened files ≡ opened fs + 1
  pub inside : AllInside fs → AllInside files

Replaced-later :
    (g f : File) (fs : List File) (o : Option (List File))
    → Replaced g fs o
    → Replaced g (f ∷ fs) (elim o [ none ↦ none | some hs ↦ some (f ∷ hs) ])
Replaced-later g f fs none r = cc r.ran
Replaced-later g f fs (some hs) r =
    let same : hs ≡ r.files = cc r.ran in
    record {
      files = f ∷ hs;
      ran = refl;
      fewer = omega (arith, r.fewer, ap fresh same);
      more = omega (arith, r.more, ap opened same);
      inside = λ h. (h.0, rw same (r.inside h.1));
    }

Replaced-one :
    (g f : File) (fs : List File) (fl : Flags)
    → f.flags ≡ fl
    → fresh_one g.flags ≡ 0
    → open_one g.flags ≡ 1
    → g.fd < fd_setsize
    → (0 < fresh fs → Replaced g fs (replace_first g fs))
    → 0 < fresh (f ∷ fs)
    → Replaced g (f ∷ fs) (
        if is_untouched fl
        then some (g ∷ fs)
        else (elim (replace_first g fs) [ none ↦ none | some hs ↦ some (f ∷ hs) ]))
Replaced-one g f fs untouched e gf go bit ih some_fresh = record {
  files = g ∷ fs;
  ran = refl;
  fewer = omega (arith, ap fresh_one e);
  more = omega (arith, ap open_one e);
  inside = λ h. (bit, h.1);
}
Replaced-one g f fs connecting e gf go bit ih some_fresh =
    Replaced-later g f fs _ (ih (omega (arith, ap fresh_one e)))
Replaced-one g f fs reading e gf go bit ih some_fresh =
    Replaced-later g f fs _ (ih (omega (arith, ap fresh_one e)))
Replaced-one g f fs finished e gf go bit ih some_fresh =
    Replaced-later g f fs _ (ih (omega (arith, ap fresh_one e)))

replace_first-Replaced :
    (g : File) (fs : List File)
    → fresh_one g.flags ≡ 0
    → open_one g.flags ≡ 1
    → g.fd < fd_setsize
    → 0 < fresh fs
    → Replaced g fs (replace_first g fs)
unfolding replace_first
replace_first-Replaced g [] gf go bit h = elim h [ ]
replace_first-Replaced g (f ∷ fs) gf go bit h =
    Replaced-one g f fs f.flags refl gf go bit (replace_first-Replaced g fs gf go bit) h

start_one-IsCounted :
    (maxnconn : ℕ) (c : Start) (w : Web)
    → Starts c
    → IsCounted maxnconn w
    → w.nconn < maxnconn
    → 0 < w.nlefttoconn
    → Ensures (IsCounted maxnconn) (start_one c w)
unfolding start_one
start_one-IsCounted maxnconn c w h v room left =
    Ensures-bind _ _ (start_connect c w.sets) _ (start_connect-IsOpen c w.sets h)
      (λ p q. started p q.0 q.1 q.2)
  where
    started :
        (p : File × Sets)
        → fresh_one p.0.flags ≡ 0
        → open_one p.0.flags ≡ 1
        → p.0.fd < fd_setsize
        → Ensures (IsCounted maxnconn) (elim (replace_first p.0 w.files) [
          | none ↦ exits
          | some fs ↦ done (record w {
            files = fs;
            sets = p.1;
            nconn = w.nconn + 1;
            nlefttoconn = w.nlefttoconn - 1;
          })
        ])
    started p gf go bit =
        let r = replace_first-Replaced p.0 w.files gf go bit (omega (arith, v.to_conn)) in
        rw r.ran (record {
          conns = omega (arith, v.conns, r.more);
          to_conn = omega (arith, v.to_conn, r.fewer);
          to_read = omega (arith, v.to_read, r.fewer, r.more);
          limited = omega arith;
          inside = r.inside v.inside;
        })

IsFilled-full :
    (maxnconn : ℕ) (w : Web)
    → ltb w.nconn maxnconn && ltb 0 w.nlefttoconn ≡ false
    → IsCounted maxnconn w
    → IsFilled maxnconn w
IsFilled-full maxnconn w full v = record {
  counted = v;
  busy = λ some_room some_left. ground (arith, v.conns, v.to_conn, v.to_read);
}

-- The inner loop does not end the process, keeps the counters right, and leaves a connection for
-- `Select` to wait for wherever a file is left to read and `maxnconn` is positive.
pub fill-IsFilled :
    (maxnconn : ℕ) (cs : List Start) (w : Web)
    → AllStart cs
    → IsCounted maxnconn w
    → Ensures (λ (p : Web × List Start). IsFilled maxnconn p.0) (fill maxnconn cs w)
unfolding fill
fill-IsFilled maxnconn [] w h v = elim (Bool-cases (ltb w.nconn maxnconn && ltb 0 w.nlefttoconn)) [
  | inl more ↦ rw more tt
  | inr full ↦ rw full (IsFilled-full maxnconn w full v)
]
fill-IsFilled maxnconn (c ∷ cs) w h v =
    elim (Bool-cases (ltb w.nconn maxnconn && ltb 0 w.nlefttoconn)) [
      | inl more ↦ rw more (
          Ensures-bind _ _ (start_one c w) _
            (start_one-IsCounted maxnconn c w h.0 v (ground arith) (ground arith))
            (λ w' v'. fill-IsFilled maxnconn cs w' h.1 v'))
      | inr full ↦ rw full (IsFilled-full maxnconn w full v)
    ]

-- What one file becomes: the counts by its end, and the descriptor.
abbrev KeepsFile : File → Served → Type 0
KeepsFile f a =
    (fresh_one a.file.flags ≡ fresh_one f.flags)
    × (open_one f.flags ≡ open_one a.file.flags + a.ended)
    × (a.file.fd < fd_setsize)

serve-KeepsFile :
    (e : Event) (f : File) (fl : Flags) (s : Sets)
    → f.flags ≡ fl
    → f.fd < fd_setsize
    → Works e
    → Ensures (KeepsFile f) (serve e f fl s)
unfolding serve
serve-KeepsFile e f untouched s k bit w = (refl, omega arith, bit)
serve-KeepsFile e f finished s k bit w = (refl, omega arith, bit)
serve-KeepsFile e f connecting s k bit w = elim (Bool-cases (e.rs f.fd || e.ws f.fd)) [
  | inl ready ↦ rw ready (
      Ensures-bind _ _ (write_get_cmd f.fd _ _) _ (write_get_cmd-IsOpen f.fd _ _ bit (w.sent f.fd))
        (λ p o. (omega (arith, o.0, ap fresh_one k), omega (arith, o.1, ap open_one k), o.2)))
  | inr early ↦ rw early (refl, omega arith, bit)
]
serve-KeepsFile e f reading s k bit w = elim (Bool-cases (e.rs f.fd)) [
  | inl ready ↦ rw ready (read (e.reads f.fd) (w.readable f.fd))
  | inr early ↦ rw early (refl, omega arith, bit)
]
  where
    read :
        (r : ReadResult)
        → Readable r
        → Ensures (KeepsFile f) (elim r [
          | failed _ ↦ exits
          | got [] ↦
              if e.closes f.fd
              then done (record {
                file = record f { flags = finished };
                sets = record s { rset = clear_bit f.fd s.rset };
                ended = 1;
              })
              else exits
          | got _ ↦ done (record { file = f; sets = s; ended = 0 })
        ])
    read (got []) h =
        rw (w.closes f.fd) (omega (arith, ap fresh_one k), omega (arith, ap open_one k), bit)
    read (got (b ∷ bs)) h = (refl, omega arith, bit)
    read (failed _) h = elim h [ ]

abbrev KeepsFiles : List File → Scanned → Type 0
KeepsFiles fs r =
    (fresh r.files ≡ fresh fs) × (opened fs ≡ opened r.files + r.ended) × AllInside r.files

scan-KeepsFiles :
    (e : Event) (fs : List File) (s : Sets)
    → AllInside fs
    → Works e
    → Ensures (KeepsFiles fs) (scan e fs s)
unfolding scan
scan-KeepsFiles e [] s bits w = (refl, omega arith, tt)
scan-KeepsFiles e (f ∷ fs) s bits w =
    Ensures-bind _ _ (serve e f f.flags s) _ (serve-KeepsFile e f f.flags s refl bits.0 w) (λ a h.
      Ensures-bind _ _ (scan e fs a.sets) _ (scan-KeepsFiles e fs a.sets bits.1 w)
        (λ r k. (omega (arith, h.0, k.0), omega (arith, h.1, k.1), (h.2, k.2))))

-- Where no call of it fails, the descriptors are below FD_SETSIZE, and the kernel takes every request
-- that is written, a round does not end the process, keeps the three counters equal to the files
-- that they count, and has no more than `maxnconn` connections open at a time.
pub round-IsCounted :
    (maxnconn : ℕ) (cs : List Start) (e : Event) (w : Web)
    → AllStart cs
    → Works e
    → IsCounted maxnconn w
    → Ensures (IsCounted maxnconn) (round maxnconn cs e w)
unfolding round
round-IsCounted maxnconn cs e w h good v =
    Ensures-bind _ _ (fill maxnconn cs w) _ (fill-IsFilled maxnconn cs w h v) (λ p u.
      let c = u.counted in
      simp good.selects (
        Ensures-bind _ _ (scan e p.0.files p.0.sets) _
          (scan-KeepsFiles e p.0.files p.0.sets c.inside good)
          (λ r k. record {
            conns = omega (arith, c.conns, k.1);
            to_conn = omega (arith, c.to_conn, k.0);
            to_read = omega (arith, c.to_read, k.0, k.1);
            limited = omega (arith, c.limited);
            inside = k.2;
          })))

pub init-IsCounted : (maxnconn nargs : ℕ) → IsCounted maxnconn (init nargs)
unfolding init
init-IsCounted maxnconn nargs = record {
  conns = sym (no_opened (min nargs max_files));
  to_conn = sym (all_fresh (min nargs max_files));
  to_read = omega (arith, no_opened (min nargs max_files), all_fresh (min nargs max_files));
  limited = omega arith;
  inside = all_inside (min nargs max_files);
}
  where
    all_inside : (n : ℕ) → AllInside (replicate n (record { fd = 0; flags = untouched }))
    all_inside zero = tt
    all_inside (suc n) = (omega arith, all_inside n)

    all_fresh : (n : ℕ) → fresh (replicate n (record { fd = 0; flags = untouched })) ≡ n
    all_fresh zero = refl
    all_fresh (suc n) = omega (arith, all_fresh n)

    no_opened :
        (n : ℕ) → ◌≡◌ {A = ℕ} (opened (replicate n (record { fd = 0; flags = untouched }))) 0
    no_opened zero = refl
    no_opened (suc n) = omega (arith, no_opened n)
