-- ===== src/References/Generate/Separate.antt =====
-- `generate` that writes one file for each source, beside it.
use text.Mathlib.TextLemmas.{append_cancel_right}
use atasks.Prelude.{
  String, ◌<>◌, ◌≡◌, refl, ◌∙◌, sym, ap, inl, inr, Option, none, some, List, [], ◌∷◌, true, false,
  eq_iff, arith,
}
use atasks.Prelude.Lists.{contains}
use atasks.Prelude.Dict
use atasks.Prelude.Dict.{lookup-insert}
use atasks.Prelude.Text.{ends_with, ends_with-drop_end}
use atasks.Errors.{Outcome-cases, returned}
use atasks.References.{render_references}
use atasks.References.Generate.{
  Host, Disk, Parsed, parse_source, is_distinct, paths_of, prepare, parse_sources, read_specs,
  refs_path, write_separate, generate,
}
use atasks.References.Generate.Combined.{write_references-cases}

refs_path-inj :
    (p q : String)
    → ends_with p ".py" ≡ true
    → ends_with q ".py" ≡ true
    → refs_path p ≡ refs_path q
    → p ≡ q
refs_path-inj p q hp hq e =
    ends_with-drop_end p ".py" hp
    ∙ ap (λ stem. stem <> ".py") (append_cancel_right _ _ "_refs.py" e)
    ∙ sym (ends_with-drop_end q ".py" hq)

abbrev AreSources : List Parsed → Type 0
AreSources [] = Unit
AreSources ((p, _) ∷ sources) = (ends_with p ".py" ≡ true) × AreSources sources

abbrev pub outputs : List Parsed → List String
outputs [] = []
outputs ((p, _) ∷ sources) = refs_path p ∷ outputs sources

-- A path that is no source is the output of none.
outputs-fresh :
    (p : String) (sources : List Parsed)
    → ends_with p ".py" ≡ true
    → AreSources sources
    → contains p (paths_of sources) ≡ false
    → contains (refs_path p) (outputs sources) ≡ false
unfolding paths_of
outputs-fresh p [] hp hs h = refl
outputs-fresh p ((q, r) ∷ sources) hp hs h = ground (
  arith,
  h,
  outputs-fresh p sources hp hs.1,
  refs_path-inj q p hs.0 hp,
  eq_iff (refs_path q) (refs_path p),
  eq_iff q p,
)

module _ (host : Host) where
  -- Each source has its references written, of its own path alone.
  abbrev pub AreWritten : List Parsed → Disk → Type 0
  AreWritten [] disk = Unit
  AreWritten ((p, references) ∷ sources) disk =
      (Dict.lookup (refs_path p) disk ≡ some (render_references host.repr references (p ∷ [])))
      × AreWritten sources disk

  write_separate_lem :
      (sources : List Parsed) (disk : Disk) (paths : List String)
      → AreSources sources
      → is_distinct (paths_of sources) ≡ true
      → (write_separate host none sources disk).0 ≡ returned paths
      → (paths ≡ outputs sources)
        × AreWritten sources (write_separate host none sources disk).1
        × ((x : String)
            → contains x (outputs sources) ≡ false
            → Dict.lookup x (write_separate host none sources disk).1 ≡ Dict.lookup x disk)
  unfolding write_separate is_distinct paths_of
  write_separate_lem [] disk paths hs hd h = ground (arith, h)
  write_separate_lem ((p, r) ∷ sources) disk paths hs hd h =
      let text = render_references host.repr r (p ∷ []) in
      let disk' = Dict.insert (refs_path p) text disk in
      elim (write_references-cases host (refs_path p) r (p ∷ []) disk) [
        | inl (x, w) ↦ absurd (ground (arith, w, h))
        | inr w ↦ elim (Outcome-cases (write_separate host none sources disk').0) [
          | inr (x, e) ↦ absurd (ground (arith, w, e, h))
          | inl (rest, e) ↦
              let l = write_separate_lem sources disk' rest hs.1 (ground (arith, hd)) e in
              let fresh = outputs-fresh p sources hs.0 hs.1 (ground (arith, hd)) in
              rw (w, e)
                (
                  ground (arith, w, e, h, l.0),
                  (
                    l.2 (refs_path p) fresh
                        ∙ lookup-insert (refs_path p) (refs_path p) text disk
                        ∙ ground (arith, eq_iff (refs_path p) (refs_path p)),
                    l.1,
                  ),
                  λ x f.
                      l.2 x (ground (arith, f))
                      ∙ lookup-insert x (refs_path p) text disk
                      ∙ ground (arith, f),
                )
        ]
      ]

  parse_sources-AreSources :
      (disk : Disk) (sources : List (String × Option String)) (parsed : List Parsed)
      → parse_sources host disk sources ≡ returned parsed
      → AreSources parsed × (paths_of parsed ≡ paths_of sources)
  unfolding parse_sources paths_of
  parse_sources-AreSources disk [] [] h = (tt, refl)
  parse_sources-AreSources disk [] (x ∷ parsed) h = absurd (ground (arith, h))
  parse_sources-AreSources disk ((p, m) ∷ sources) parsed h =
      elim (Outcome-cases (parse_source host disk p m)) [
        | inr (x, e) ↦ absurd (ground (arith, e, h))
        | inl (references, e) ↦ elim (Outcome-cases (parse_sources host disk sources)) [
          | inr (x, f) ↦ absurd (ground (arith, e, f, h))
          | inl (rest, f) ↦
              let l = parse_sources-AreSources disk sources rest f in
              let same : parsed ≡ (p, references) ∷ rest = ground (arith, e, f, h) in
              rw same ((ground (arith, e), l.0), ap (λ xs. p ∷ xs) l.1)
        ]
      ]

  prepare-AreSources :
      (specs : List String) (disk : Disk) (parsed : List Parsed)
      → prepare host specs none none disk ≡ returned parsed
      → AreSources parsed × (is_distinct (paths_of parsed) ≡ true)
  unfolding prepare
  prepare-AreSources [] disk parsed h = absurd (ground (arith, h))
  prepare-AreSources (spec ∷ specs) disk parsed h =
      elim (Outcome-cases (read_specs host.abspath (spec ∷ specs))) [
        | inr (x, e) ↦ absurd (ground (arith, e, h))
        | inl (sources, e) ↦
            let l = parse_sources-AreSources disk sources parsed (ground (arith, e, h)) in
            (l.0, rw l.1 (ground (arith, e, h)))
      ]

  -- Without an output, a `generate` that returns has written, for each source, the file beside it
  -- with the references of that source alone, has left every other file as it was, and returns the
  -- paths that it wrote in the order of the sources. A source that has the path of such a file is
  -- overwritten.
  pub generate-separate :
      (specs : List String) (disk : Disk) (paths : List String)
      → (generate host specs none none disk).0 ≡ returned paths
      → (parsed : List Parsed) × (prepare host specs none none disk ≡ returned parsed)
        × (paths ≡ outputs parsed)
        × AreWritten parsed (generate host specs none none disk).1
        × ((x : String)
            → contains x (outputs parsed) ≡ false
            → Dict.lookup x (generate host specs none none disk).1 ≡ Dict.lookup x disk)
  unfolding generate
  generate-separate specs disk paths h = elim (Outcome-cases (prepare host specs none none disk)) [
    | inr (x, e) ↦ absurd (ground (arith, e, h))
    | inl (parsed, e) ↦
        let (s, d) = prepare-AreSources specs disk parsed e in
        let l = write_separate_lem parsed disk paths s d (ground (arith, e, h)) in
        (parsed, e, l.0, rw e l.1, rw e l.2)
  ]
