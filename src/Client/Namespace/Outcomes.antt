-- ===== src/Client/Namespace/Outcomes.antt =====
-- When the operations on the namespace succeed, and which calls they have made then.
use hdfs.Prelude.{
  ℕ, ◌≡◌, refl, ◌⊎◌, inl, inr, ◌↔◌, Bool, true, none, some, ◌∷◌, String, arith, Sum-cases,
}
use hdfs.Prelude.Errors.{Error}
use hdfs.Client.Exceptions.{interpret_exception, is_not_exist}
use hdfs.Client.Requests.{Request, FileStatus, Namenode, World}
use hdfs.Client.Writer.{Options, get_file_info}
use hdfs.Client.Namespace.{make_dir, delete, remove_all, rename}

module _ (N : Namenode) (o : Options) (clean : String → String) where
  open N use {on_get_file_info, on_mkdirs, on_delete, on_rename2}

  -- What `getFileInfo` finds for a path, as the first call behind `w`.
  abbrev pub info : String → World → FileStatus ⊎ Error
  info name w = (get_file_info N o name w).0

  info_history :
      (name : String) (w : World)
      → (get_file_info N o name w).1.history ≡ Request.get_file_info name ∷ w.history
  unfolding get_file_info
  info_history name w = refl

  -- `mkdir` reports no error in two cases only. Either the path was free, and the namenode has been
  -- asked for it and then to make it, and has answered with a result, whichever that is: also if it
  -- says that nothing was made. Or parents were to be made too, the path was a directory, and nothing
  -- has been asked for but the path.
  pub make_dir_lem :
      (name : String) (perm : ℕ) (create_parent : Bool) (w : World)
      → (make_dir N o clean name perm create_parent w).0 ≡ none
      → let dirname = clean name in
        let asked = Request.get_file_info dirname ∷ w.history in
        let made = Request.mkdirs dirname perm create_parent ∷ asked in
        (((e : Error) × (info dirname w ≡ inr e)
          × (is_not_exist (interpret_exception e) ≡ true)
          × ((result : Bool) × (on_mkdirs made ≡ inl result))
          × ((make_dir N o clean name perm create_parent w).1.history ≡ made)))
        ⊎ ((status : FileStatus) × (info dirname w ≡ inl status)
            × (status.is_dir ≡ true)
            × (create_parent ≡ true)
            × ((make_dir N o clean name perm create_parent w).1.history ≡ asked))
  unfolding make_dir get_file_info
  make_dir_lem name perm create_parent w h = elim (Sum-cases (info (clean name) w)) [
    | inl (status, e) ↦ inr (status, e, ground arith, ground arith, ground arith)
    | inr (x, e) ↦ inl (x, e, ground arith, ground arith, ground arith)
  ]

  deleted :
      (name : String) (recursive : Bool) (w : World)
      → (delete N o clean name recursive w).0 ≡ none
      → ((status : FileStatus) × (info name w ≡ inl status))
        × ((result : Bool) × (on_delete
                (Request.delete name recursive ∷ Request.get_file_info name ∷ w.history)
              ≡ inl (some result)))
  unfolding delete get_file_info
  deleted name recursive w h = elim (Sum-cases (info name w)) [
    | inr (x, e) ↦ absurd (ground arith)
    | inl (status, e) ↦
        let requests = Request.delete name recursive ∷ Request.get_file_info name ∷ w.history in
        elim (Sum-cases (on_delete requests)) [
          | inr (x, k) ↦ absurd (ground arith)
          | inl (none, k) ↦ absurd (ground arith)
          | inl (some result, k) ↦ ((status, e), (result, k))
        ]
  ]

  -- `delete` reports no error exactly if the path has a status and the namenode answers the call to
  -- delete it with a result, whichever that is: also if it says that nothing was deleted.
  pub delete_iff :
      (name : String) (recursive : Bool) (w : World)
      → ((delete N o clean name recursive w).0 ≡ none) ↔ (
          ((status : FileStatus) × (info name w ≡ inl status))
          × ((deleted : Bool) × (on_delete
                  (Request.delete name recursive ∷ Request.get_file_info name ∷ w.history)
                ≡ inl (some deleted))))
  unfolding delete get_file_info
  delete_iff name recursive w =
      (deleted name recursive w, λ ((status, e), (result, k)). ground arith)

  -- `RemoveAll` reports no error for a path that has no status, and asks for nothing to be deleted.
  pub remove_all_missing :
      (name : String) (w : World)
      → on_get_file_info (Request.get_file_info name ∷ w.history) ≡ inl none
      → ((remove_all N o clean name w).0 ≡ none)
        × ((remove_all N o clean name w).1.history ≡ Request.get_file_info name ∷ w.history)
  unfolding remove_all delete get_file_info is_not_exist
  remove_all_missing name w h = (ground arith, ground arith)

  -- A rename without an error has asked for the new path and then to rename over it, whether there was
  -- something or not; no other error of the first call lets it go on.
  pub rename_lem :
      (oldpath newpath : String) (w : World)
      → (rename N o clean oldpath newpath w).0 ≡ none
      → let renamed =
          Request.rename2 oldpath newpath true ∷ Request.get_file_info newpath ∷ w.history in
        (on_rename2 renamed ≡ inl tt)
        × ((rename N o clean oldpath newpath w).1.history ≡ renamed)
        × ((e : Error) → info newpath w ≡ inr e → is_not_exist (interpret_exception e) ≡ true)
  unfolding rename get_file_info
  rename_lem oldpath newpath w h = (ground arith, ground arith, λ e k. ground arith)
