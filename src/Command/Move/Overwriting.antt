-- ===== src/Command/Move/Overwriting.antt =====
-- What `mv` may overwrite.
use hdfs.Prelude.{
  ◌≡◌, refl, ap, ◌∙◌, ◌⊎◌, inl, inr, Bool, true, false, not, ◌&&◌, none, some, ◌∷◌, String, arith,
  Bool-cases, Sum-cases,
}
use hdfs.Prelude.Errors.{Error}
use hdfs.Client.Exceptions.{is_not_exist}
use hdfs.Client.Requests.{Request, FileStatus, Namenode, World}
use hdfs.Client.Writer.{Options, get_file_info}
use hdfs.Client.Namespace.{stat, rename}
use hdfs.Command.Move.{as_rename, refusal, move_to}

module _ (N : Namenode) (o : Options) (clean base : String → String)
    (join : String → String → String) where
  -- `moveTo` without an error has found the source, and found no destination, or one that it was told
  -- to replace and that is not a directory unless the source is one; and `Rename` has moved the one
  -- over the other without an error.
  pub move_to_lem :
      (source dest : String) (force : Bool) (w : World)
      → (move_to N o clean base join source dest force w).0 ≡ none
      → let w1 = (stat N o clean source w).1 in
        let w2 = (stat N o clean dest w1).1 in
        (status : FileStatus) × ((stat N o clean source w).0 ≡ inl status)
        × (((e : Error) × ((stat N o clean dest w1).0 ≡ inr e) × (is_not_exist e ≡ true))
            ⊎ ((old : FileStatus) × ((stat N o clean dest w1).0 ≡ inl old)
                × (force ≡ true)
                × (old.is_dir ≡ true → status.is_dir ≡ true)))
        × ((rename N o clean source dest w2).0 ≡ none)
        × (move_to N o clean base join source dest force w ≡ rename N o clean source dest w2)
  unfolding move_to refusal
  move_to_lem source dest force w h =
      let w1 = (stat N o clean source w).1 in
      elim (Sum-cases (stat N o clean source w).0) [
        | inr (e, k) ↦ absurd (ground arith)
        | inl (status, k) ↦ elim (Sum-cases (stat N o clean dest w1).0) [
          | inr (e, l) ↦ elim (Bool-cases (is_not_exist e)) [
            | inr other ↦ absurd (ground arith)
            | inl missing ↦ (status, k, inl (e, l, missing), ground arith, ground arith)
          ]
          | inl (old, l) ↦
              (status, k, inr (old, l, ground arith, λ d. ground arith), ground arith, ground arith)
        ]
      ]

  stat_history :
      (name : String) (w : World)
      → (stat N o clean name w).1.history ≡ Request.get_file_info name ∷ w.history
  unfolding stat get_file_info
  stat_history name w = refl

  -- Without force, `moveTo` never renames over a destination that has a status: it fails, and has asked
  -- the namenode for the status of the source, and for that of the destination if the source has
  -- one, and for nothing else.
  pub move_to_keeps :
      (source dest : String) (w : World) (old : FileStatus)
      → (stat N o clean dest (stat N o clean source w).1).0 ≡ inl old
      → let r = move_to N o clean base join source dest false w in
        ((e : Error) × (r.0 ≡ some e))
        × ((r.1.history ≡ Request.get_file_info source ∷ w.history)
            ⊎ (r.1.history ≡ Request.get_file_info dest ∷ Request.get_file_info source ∷ w.history))
  unfolding move_to refusal
  move_to_keeps source dest w old h =
      let w1 = (stat N o clean source w).1 in
      let asked = stat_history source w in
      let asked2 = stat_history dest w1 ∙ ap (λ l. Request.get_file_info dest ∷ l) asked in
      elim (Sum-cases (stat N o clean source w).0) [
        | inr (e, k) ↦ ((as_rename e, ground arith), inl (ground arith))
        | inl (status, k) ↦ elim (Bool-cases (old.is_dir && not status.is_dir)) [
          | inl l ↦ ((Error.replaces_directory, ground arith), inr (ground arith))
          | inr l ↦ ((Error.path_error "rename" dest Error.exist, ground arith), inr (ground arith))
        ]
      ]
