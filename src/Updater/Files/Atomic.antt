-- ===== src/Updater/Files/Atomic.antt =====
-- updater.go: what a reader sees of a file while writeFileAtomic replaces it, and what is left.
use wallbox_homeautomation_g.Base.{
  ==_false, ==_self, ==→≡, Bool-cases, List, Option, String, [], arith, false, if_intro, inl, inr,
  none, not, refl, some, true, ◌==◌, ◌∷◌, ◌≡◌, ◌≢◌, ◌⊎◌,
}
use wallbox_homeautomation_g.Updater.Files.{Calls, Files, Run, give_up, write, write_file_atomic}

-- In each of these states the file at `path` has this content.
abbrev pub StillHolds : String → Option String → List Files → Type 0
StillHolds path content [] = Unit {0}
StillHolds path content (s ∷ states) = (s path ≡ content) × StillHolds path content states

pub write_self :
    (path : String) (content : Option String) (files : Files)
    → write path content files path ≡ content
write_self path content files = ground (arith, ==_self path)

pub write_ne :
    (path q : String) (content : Option String) (files : Files)
    → q ≢ path
    → write path content files q ≡ files q
write_ne path q content files h = ground (arith, ==_false q path h)

-- The temporary file's contents are not seen elsewhere.
elsewhere :
    (temp q : String) (body start : Option String) (files : Files)
    → q ≢ temp
    → write temp body (write temp start files) q ≡ files q
elsewhere temp q body start files h = rw (==_false q temp h)

-- Once removed, a file that was not there before leaves no trace.
removed :
    (temp q : String) (body start : Option String) (files : Files)
    → files temp ≡ none
    → write temp none (write temp body (write temp start files)) q ≡ files q
removed temp q body start files fresh = elim (Bool-cases (q == temp)) [
  | inl same ↦ rw (same, ==→≡ q temp same, fresh)
  | inr other ↦ rw other
]

module _ (calls : Calls) (path content : String) (files : Files) where
  -- Every file but the temporary one has its old content in all of these states.
  abbrev Undisturbed : List Files → Type 0
  Undisturbed earlier = (p : String) → p ≢ calls.temp → StillHolds p (files p) earlier

  undisturbed :
      (body start : Option String) (earlier : List Files)
      → Undisturbed earlier
      → Undisturbed (write calls.temp body (write calls.temp start files) ∷ earlier)
  undisturbed body start earlier h p other =
      (elsewhere calls.temp p body start files other, h p other)

  -- the outcomes of a run at `q`
  abbrev Replaces : String → Run → Type 0
  Replaces q r =
      Undisturbed r.earlier
      × (((r.done ≡ true) × (r.files q ≡ write path (some content) files q))
          ⊎ ((r.done ≡ false) × (r.files q ≡ files q)))

  give_up-Replaces :
      (q body : String) (earlier : List Files)
      → files calls.temp ≡ none
      → (calls.removes ≡ true) ⊎ (q ≢ calls.temp)
      → Undisturbed earlier
      → Replaces q
          (give_up calls (write calls.temp (some body) (write calls.temp (some "") files)) earlier)
  unfolding give_up
  give_up-Replaces q body earlier fresh (inl gone) h = (
    undisturbed (some body) (some "") earlier h,
    inr (refl, rw gone (removed calls.temp q (some body) (some "") files fresh)),
  )
  give_up-Replaces q body earlier fresh (inr other) h = (
    undisturbed (some body) (some "") earlier h,
    inr (
      refl,
      if_intro (λ (fs : Files). fs q ≡ files q) calls.removes
          (removed calls.temp q (some body) (some "") files fresh)
          (elsewhere calls.temp q _ _ files other),
    ),
  )

  -- a renamed file
  renamed :
      (q : String)
      → files calls.temp ≡ none
      → write path
          (some content)
          (write calls.temp none
            (write calls.temp (some content) (write calls.temp (some "") files)))
          q
        ≡ write path (some content) files q
  renamed q fresh = rw (removed calls.temp q (some content) (some "") files fresh)

  created : Undisturbed (write calls.temp (some "") files ∷ files ∷ [])
  created p other = (write_ne calls.temp p (some "") files other, (refl, tt))

  outcomes :
      (q : String)
      → files calls.temp ≡ none
      → (calls.removes ≡ true) ⊎ (q ≢ calls.temp)
      → Replaces q (write_file_atomic calls path content files)
  unfolding write_file_atomic
  outcomes q fresh gone =
      let fails = λ (body : String).
        give_up-Replaces q body (write calls.temp (some "") files ∷ files ∷ []) fresh gone
          created in
      if_intro (Replaces q) (not calls.creates) ((λ p h. tt), inr (refl, refl))
        (if_intro (Replaces q) (not calls.writes) (fails calls.partial) (
          if_intro (Replaces q) (not calls.closes) (fails content) (
            if_intro (Replaces q) (not calls.renames) (fails content) (
              undisturbed (some content) (some "") (write calls.temp (some "") files ∷ files ∷ [])
                  created,
              inl (refl, renamed q fresh),
            ))))

  -- If the temporary name is new and not the path itself, then at every moment before the end the
  -- file at `path`, and every other file p but the temporary one, has its old content. In the end
  -- either the file at `path` has the whole new content and no other file q has changed, or there is
  -- an error and no file has changed, except that the temporary one may be left if it cannot be
  -- removed.
  pub write_file_atomic-cases :
      (p q : String)
      → path ≢ calls.temp
      → p ≢ calls.temp
      → files calls.temp ≡ none
      → (calls.removes ≡ true) ⊎ (q ≢ calls.temp)
      → let r = write_file_atomic calls path content files in
        StillHolds path (files path) r.earlier
        × StillHolds p (files p) r.earlier
        × (((r.done ≡ true) × (r.files q ≡ write path (some content) files q))
            ⊎ ((r.done ≡ false) × (r.files q ≡ files q)))
  write_file_atomic-cases p q other apart fresh gone =
      let (all, ends) = outcomes q fresh gone in (all path other, all p apart, ends)
