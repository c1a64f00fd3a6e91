-- ===== src/Config/Read/Included.antt =====
-- The files of an `include` line, which lib/config_file.c reads one after the other.
use mathlib.Core.List.{append-nil, append_assoc}
use lirc.Base.{
  ℕ, ◌-◌, ◌≡◌, refl, ap, ◌∙◌, Bool, true, false, if◌then◌else◌, List, [], ◌∷◌, ◌++◌, Option, none,
  some,
}
use lirc.Base.{take, drop, length, sym, Bool-cases, inl, inr}
use lirc.Config.Finish.{finish_remotes}
use lirc.Remote.{Name}
use lirc.Transmit.{SendBuffer}
use lirc.Config.{Draft, Outcome, done, ◌>>=◌}
use lirc.Config.Include.{lirc_parse_include, lirc_parse_relative}
use lirc.Config.Read.{
  FileResult, append_included, read_end, read_each, read_all_included, read_config_recursive,
}
use lirc.Config.Read.Errors.{included-failed, included-read}
use lirc.Config.Sections.{Parser, id_none, same_mode}

-- The remotes of the files that were read without an error.
abbrev pub kept : List (Option (List Draft)) → List Draft
kept [] = []
kept (none ∷ rs) = kept rs
kept (some ds ∷ rs) = ds ++ kept rs

-- Whether the last file failed; without a file, what was before.
abbrev pub last_failed : Bool → List (Option (List Draft)) → Bool
last_failed before [] = before
last_failed before (none ∷ rs) = last_failed true rs
last_failed before (some ds ∷ rs) = last_failed false rs

module _ (file : Name → Option (List ℕ)) (glob : Name → List Name) (dynamic_codes : Bool)
    (levels : ℕ) where
  -- `read_config_recursive` for each path in turn, with the send buffer that the one before left: all
  -- files can be opened, and their readings return.
  pub data AllRead : SendBuffer → List Name → List (Option (List Draft)) → SendBuffer → Type 0 where
    no_more : {b : SendBuffer} → AllRead b [] [] b
    next_file :
        {b b' b'' : SendBuffer} {paths : List Name} {rs : List (Option (List Draft))}
        (given path : Name) (text : List ℕ) (r : Option (List Draft))
        → lirc_parse_include (take 255 (b'"' ∷ (given ++ (b'"' ∷ [])))) ≡ some path
        → file path ≡ some text
        → read_config_recursive file glob dynamic_codes levels path text b ≡ done (b', r)
        → AllRead b' paths rs b''
        → AllRead b (given ∷ paths) (r ∷ rs) b''

  abbrev child : Option (Name → List ℕ → SendBuffer → Outcome FileResult)
  child = some (read_config_recursive file glob dynamic_codes levels)

  abbrev pub after_files : Parser → List (Option (List Draft)) → SendBuffer → Parser
  after_files p rs b = record p {
    top = p.top ++ kept rs;
    buffer = b;
    parse_error = last_failed p.parse_error rs;
  }

  read_end-outside :
      (p : Parser)
      → p.mode ≡ id_none
      → read_end file glob dynamic_codes p ≡ (
          if p.parse_error
          then done (p.buffer, none)
          else (finish_remotes p.buffer p.top >>= λ r. done (r.0, some r.1)))
  unfolding read_end same_mode
  read_end-outside p m = elim (Bool-cases p.parse_error) [
    | inl e ↦ rw (m, e, if◌then◌else◌) refl
    | inr e ↦ rw (m, e, if◌then◌else◌) refl
  ]

  append_included-outside :
      (ds : List Draft) (p : Parser)
      → p.mode ≡ id_none
      → append_included ds p ≡ record p { top = p.top ++ ds }
  unfolding same_mode
  append_included-outside ds p m = rw (m, if◌then◌else◌) refl

  read_each-AllRead :
      {b b' : SendBuffer} {paths : List Name} {rs : List (Option (List Draft))} (p : Parser)
      → AllRead b paths rs b'
      → p.mode ≡ id_none
      → p.buffer ≡ b
      → read_each file glob dynamic_codes child paths p ≡ done (after_files p rs b')
  unfolding read_each
  read_each-AllRead p no_more m e =
      ap (λ t. done (record p { top = t })) (sym (append-nil p.top))
      ∙ ap (λ t. done (record p { top = p.top ++ []; buffer = t })) e
  read_each-AllRead p
        (next_file {b} {b'} {b''} {paths} {rs} given path text none parsed found got rest) m e =
      let q : Parser = record p { buffer = b'; parse_error = true } in
      let val = take 255 (b'"' ∷ (given ++ (b'"' ∷ []))) in
      let read = read_config_recursive file glob dynamic_codes levels in
      let got' = ap (λ t. read path text t) e ∙ got in
      let first =
        included-failed file glob dynamic_codes read val path p parsed text b' found got' in
      ap (λ o. o >>= λ t. read_each file glob dynamic_codes child paths t) first
      ∙ read_each-AllRead q rest m refl
  read_each-AllRead p
        (next_file {b} {b'} {b''} {paths} {rs} given path text (some ds) parsed found got rest) m
        e =
      let q : Parser = record p { buffer = b'; parse_error = false } in
      let val = take 255 (b'"' ∷ (given ++ (b'"' ∷ []))) in
      let read = read_config_recursive file glob dynamic_codes levels in
      let got' = ap (λ t. read path text t) e ∙ got in
      let first =
        included-read file glob dynamic_codes read val path p parsed text b' ds found got'
        ∙ ap done (append_included-outside ds q m) in
      ap (λ o. o >>= λ t. read_each file glob dynamic_codes child paths t) first
      ∙ read_each-AllRead (record q { top = p.top ++ ds }) rest m refl
      ∙ ap (λ t. done (record p { top = t; buffer = b''; parse_error = last_failed false rs }))
          (append_assoc p.top ds (kept rs))

  -- A file whose last line, outside all sections, includes files that can all be opened, and whose
  -- readings return: without an error before, whether reading the file fails depends on the last of
  -- these files alone. If that one fails, so does the file; if not, the errors of the files before it
  -- are forgotten, and the remotes that are finished and returned are those that the file had before
  -- the line, followed by those of the files that did not fail, in their order, while the remotes of
  -- the files that failed are lost.
  pub read_all_included-AllRead :
      (name val : Name) (paths : List Name) (rs : List (Option (List Draft))) (b : SendBuffer)
      (p : Parser)
      → glob (lirc_parse_relative 256 (take (length val - 2) (drop 1 val)) (some name)) ≡ paths
      → AllRead p.buffer paths rs b
      → p.mode ≡ id_none
      → p.parse_error ≡ false
      → (read_all_included file glob dynamic_codes
            (some (read_config_recursive file glob dynamic_codes levels))
            name
            val
            p
          >>= read_end file glob dynamic_codes)
        ≡ (if last_failed false rs
            then done (b, none)
            else (finish_remotes b (p.top ++ kept rs) >>= λ r. done (r.0, some r.1)))
  unfolding read_all_included
  read_all_included-AllRead name val paths rs b p found h m ok = rw found (
      ap (λ o. o >>= read_end file glob dynamic_codes) (read_each-AllRead p h m refl)
      ∙ ap
          (λ t.
            read_end file glob dynamic_codes
              (record p { top = p.top ++ kept rs; buffer = b; parse_error = last_failed t rs }))
          ok
      ∙ read_end-outside _ m)
