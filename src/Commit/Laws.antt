-- ===== src/Commit/Laws.antt =====
-- The options of a commit, as C passes them.
use loro_c.Base.{
  ap, ◌∙◌, false, ℕ, ◌≡◌, refl, ◌==◌, if◌then◌else◌, Bool-cases, inl, inr, Option, none, some, List,
}
use loro_c.World.{Loro, World, Ptr, null_ptr, doc, Call}
use loro_c.Error.{LoroStatus, loro_err_invalid_arg, set_last_error}
use loro_c.Abi.Laws.{Returns, Points, Ends, bind, goes, guarded}
use loro_c.Abi.Contract.{Failed, failed}
use loro_c.Abi.Replaced.{Replaced}
use loro_c.Abi.Steps.{deref_at}
use loro_c.Value.Args.{StringArg, string_argument}
use loro_c.Value.Json.Steps.{string_or, mutated}
use loro_c.Subscribe.{as_doc}
use loro_c.Commit.{
  LoroCommitOptions, Commits, with_text, build_commit_options, loro_doc_commit_with,
  loro_doc_set_next_commit_options,
}

module _ {loro : Loro} (crate : Commits loro) (w : World loro) where
  abbrev added :
      (crate.CommitOptions → List ℕ → crate.CommitOptions)
      → crate.CommitOptions
      → Option (List ℕ)
      → Option crate.CommitOptions
  added f co none = none
  added f co (some s) = some (f co s)

  -- The text of an option that is not null, added to the options; none where it is no string.
  abbrev text_option :
      (crate.CommitOptions → List ℕ → crate.CommitOptions)
      → Ptr
      → ℕ
      → crate.CommitOptions
      → Option crate.CommitOptions
  text_option f p len co = if p == null_ptr then some co else added f co (string_argument w p len)

  given :
      (f : crate.CommitOptions → List ℕ → crate.CommitOptions) (p : Ptr) (len : ℕ)
      (co : crate.CommitOptions)
      → (p == null_ptr) ≡ false
      → text_option f p len co ≡ added f co (string_argument w p len)
  given f p len co e = ap (λ b. if b then some co else added f co (string_argument w p len)) e

  text_any :
      {U : World loro → Type 0} {E : LoroStatus → World loro → Type 0}
      {Q : crate.CommitOptions → World loro → Type 0}
      (f : crate.CommitOptions → List ℕ → crate.CommitOptions) (p : Ptr) (len : ℕ)
      (co : crate.CommitOptions)
      → StringArg w p len
      → (text_option f p len co ≡ none
          → (message : List ℕ) → E loro_err_invalid_arg (set_last_error message w))
      → ((co' : crate.CommitOptions) → text_option f p len co ≡ some co' → Q co' w)
      → Ends ⊥ E U Q (with_text crate f p len co w)
  unfolding with_text
  text_any f p len co arg bad good = elim (Bool-cases (p == null_ptr)) [
    | inl e ↦ rw e (goes (good co (rw e refl)))
    | inr e ↦ rw e (
        bind (
          string_or w p len loro_err_invalid_arg arg
            (λ x. bad (given f p len co e ∙ ap (added f co) x) _)
            λ s x. goes (good (f co s) (given f p len co e ∙ ap (added f co) x))))
  ]

  -- The options that C describes: those that are given, on top of the defaults, in the order of the
  -- builder; none where a text is no string.
  abbrev pub timed : LoroCommitOptions → crate.CommitOptions → crate.CommitOptions
  timed opts co = if opts.has_timestamp then crate.with_timestamp co opts.timestamp else co

  abbrev with_message : LoroCommitOptions → Option crate.CommitOptions → Option crate.CommitOptions
  with_message opts none = none
  with_message opts (some co) = text_option crate.with_commit_msg opts.message opts.message_len co

  abbrev stamped : LoroCommitOptions → Option crate.CommitOptions → Option crate.CommitOptions
  stamped opts none = none
  stamped opts (some co) = some (timed opts co)

  abbrev pub described : LoroCommitOptions → Option crate.CommitOptions
  described opts = stamped opts (
      with_message opts (
        text_option crate.with_origin opts.origin opts.origin_len
          (crate.with_immediate_renew crate.options_new opts.immediate_renew)))

  options_any :
      {U : World loro → Type 0} {E : LoroStatus → World loro → Type 0}
      {Q : crate.CommitOptions → World loro → Type 0} (opts : LoroCommitOptions)
      → StringArg w opts.origin opts.origin_len
      → StringArg w opts.message opts.message_len
      → (described opts ≡ none
          → (message : List ℕ) → E loro_err_invalid_arg (set_last_error message w))
      → ((co : crate.CommitOptions) → described opts ≡ some co → Q co w)
      → Ends ⊥ E U Q (build_commit_options crate opts w)
  unfolding build_commit_options
  options_any opts origin message bad good = bind (
      text_any crate.with_origin opts.origin opts.origin_len _ origin (λ e. bad (rw e refl))
        λ co e. bind (
          text_any crate.with_commit_msg opts.message opts.message_len co message
            (λ f. bad (rw e (rw f refl))) λ co' f. goes (good _ (rw e (rw f refl)))))

  -- The document after a commit with these options; or a refusal.
  abbrev pub CommitsWith :
      Ptr
      → (crate.CommitOptions → loro.Doc × Call (Unit {0}))
      → Option crate.CommitOptions
      → LoroStatus
      → World loro
      → Type 0
  CommitsWith p f none status w' = (status ≡ loro_err_invalid_arg) × Failed w w'
  CommitsWith p f (some co) status w' = Replaced w p (doc (f co).0) (f co).1 status w'

-- Committing a live document with options, and setting the options of its next commit, where origin
-- and message are string arguments as the C API asks for them or null: if those that are not null
-- are UTF-8, the crate `loro` is given just the options that C describes (its defaults, the renewal,
-- the origin and the message that are not null, the timestamp if it is flagged), the document is what
-- the crate makes of it, also where it panics, the status says whether it panicked, and nothing else of
-- the world changes, but that a panic is recorded as the last error; otherwise the status is "invalid
-- argument" with a message, and no box and no variable of the caller changes.
pub commit_with-CommitsWith :
    {loro : Loro} (crate : Commits loro) (w : World loro) (p : Ptr) (d : loro.Doc)
    (opts : LoroCommitOptions)
    → Points (as_doc loro) w p d
    → StringArg w opts.origin opts.origin_len
    → StringArg w opts.message opts.message_len
    → Returns
        (CommitsWith crate w p (crate.doc_commit_with d) (described crate w opts))
        (loro_doc_commit_with crate p opts w)
      × Returns
          (CommitsWith crate w p (crate.doc_set_next_commit_options d) (described crate w opts))
          (loro_doc_set_next_commit_options crate p opts w)
unfolding loro_doc_commit_with loro_doc_set_next_commit_options
commit_with-CommitsWith {loro} crate w p d opts at_p origin message = (
  guarded _ (
      bind (
        deref_at w (as_doc loro) p _ at_p (
          bind (
            options_any crate w opts origin message (λ e x. rw e (refl, failed w x))
              λ co e. rw e (mutated w doc p (crate.doc_commit_with d co)))))),
  guarded _ (
      bind (
        deref_at w (as_doc loro) p _ at_p (
          bind (
            options_any crate w opts origin message (λ e x. rw e (refl, failed w x))
              λ co e. rw e (mutated w doc p (crate.doc_set_next_commit_options d co)))))),
)
