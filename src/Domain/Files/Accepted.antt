-- ===== src/Domain/Files/Accepted.antt =====
-- What accepted managed files hold (src/domain/validation.rs).
use solodock.Base.{
  all, ℕ, suc, ◌+◌, ◌≤◌, Bool, true, false, not, List, [], ◌∷◌, ◌≡◌, All, arith, length, leb, ok,
  ensure, ensure_iff, sequence_iff, bind-ok, sym, ◌∙◌, ok_or, is_some,
}
use solodock.Base.Text.{Text, lit, same_sym}
use solodock.Domain.Errors.{DomainError, at}
use solodock.Domain.Environment.{SecretOperation, get_value}
use solodock.Domain.Sorting.{sort_by_key, has_text}
use solodock.Domain.Sorting.Kept.{Pairwise, sort_by_key-All, sort_by_key-Pairwise}
use solodock.Domain.Files.{
  max_files, ManagedFileContent, ManagedFileInput, FileState, max_file_total_bytes, file_conflict,
  check_file, claim_file, place_public, place_secret, check_new_content, check_quota, add_public,
  operation_required, operate_secret, with_operation, add_content, add_file, add_files,
  normalize_files, no_files,
}
use solodock.Domain.Files.Placed.{
  Entry, IsMountable, Differ, IsAccepted, content_bytes, place_file-IsPlaced, check_quota-total,
  place_public-IsCounted, place_secret-IsCounted,
}

check_new_content-claim :
    (index : ℕ) (item : ManagedFileInput) (value : Text) (state : FileState)
    → check_new_content index item value state ≡ ok tt
    → claim_file index item state ≡ ok tt
unfolding check_new_content
check_new_content-claim index item value state h =
    ((sequence_iff (claim_file index item state) _).0 h).0

module _ (index : ℕ) (item : ManagedFileInput) (checked : check_file index item ≡ ok tt) where
  place_public-IsAccepted :
      (value : Text) (total : ℕ) (state : FileState)
      → claim_file index item state ≡ ok tt
      → check_quota index value state ≡ ok total
      → IsAccepted state
      → IsAccepted (place_public index item value total state)
  unfolding place_public
  place_public-IsAccepted value total state claimed counting (placed, counted) = (
    place_file-IsPlaced index item total state checked claimed placed,
    place_public-IsCounted index item value total state
        (check_quota-total index value state total counting) counted,
  )

  place_secret-IsAccepted :
      (value : Text) (total : ℕ) (state : FileState)
      → claim_file index item state ≡ ok tt
      → check_quota index value state ≡ ok total
      → IsAccepted state
      → IsAccepted (place_secret index item value total state)
  unfolding place_secret
  place_secret-IsAccepted value total state claimed counting (placed, counted) = (
    place_file-IsPlaced index item total state checked claimed placed,
    place_secret-IsCounted index item value total state
        (check_quota-total index value state total counting) counted,
  )

  add_public-IsAccepted :
      (value : Text) (state next : FileState)
      → add_public index item value state ≡ ok next
      → IsAccepted state
      → IsAccepted next
  unfolding add_public
  add_public-IsAccepted value state next h accepted =
      let (u, new, h1) = bind-ok (check_new_content index item value state) _ _ h in
      let (total, counting, h2) = bind-ok (check_quota index value state) _ _ h1 in
      let e : next ≡ place_public index item value total state = cc in
      rw e (
        place_public-IsAccepted value total state
          (check_new_content-claim index item value state new) counting accepted)

  operate_secret-IsAccepted :
      (existing : List (Text × Text)) (operation : SecretOperation) (state next : FileState)
      → operate_secret index existing item operation state ≡ ok next
      → IsAccepted state
      → IsAccepted next
  unfolding operate_secret
  operate_secret-IsAccepted existing SecretOperation.keep state next h accepted =
      let (value, found, h1) =
        bind-ok (ok_or (get_value existing item.logical_name) (operation_required index)) _ _ h in
      let (u, claimed, h2) = bind-ok (claim_file index item state) _ _ h1 in
      let (total, counting, h3) = bind-ok (check_quota index value state) _ _ h2 in
      let e : next ≡ place_secret index item value total state = cc in
      rw e (place_secret-IsAccepted value total state claimed counting accepted)
  operate_secret-IsAccepted existing (SecretOperation.replace value) state next h accepted =
      let (u, new, h1) = bind-ok (check_new_content index item value state) _ _ h in
      let (total, counting, h2) = bind-ok (check_quota index value state) _ _ h1 in
      let e : next ≡ place_secret index item value total state = cc in
      rw e (
        place_secret-IsAccepted value total state
          (check_new_content-claim index item value state new) counting accepted)
  operate_secret-IsAccepted existing SecretOperation.delete state next h accepted =
      let (u, found, h1) =
        bind-ok (ensure (is_some (get_value existing item.logical_name)) (operation_required index))
          _ _ h in
      let e : next ≡ state = cc in rw e accepted

  add_content-IsAccepted :
      (existing : List (Text × Text)) (sensitive : Bool) (content : ManagedFileContent)
      (state next : FileState)
      → add_content index existing item sensitive content state ≡ ok next
      → IsAccepted state
      → IsAccepted next
  unfolding add_content
  add_content-IsAccepted existing false (ManagedFileContent.public value) state next h accepted =
      add_public-IsAccepted value state next h accepted
  add_content-IsAccepted existing true (ManagedFileContent.public value) state next h accepted =
      absurd cc
  add_content-IsAccepted existing false (ManagedFileContent.secret operation) state next h
        accepted =
      absurd cc
  add_content-IsAccepted existing true (ManagedFileContent.secret operation) state next h accepted =
      let (u, new, h1) =
        bind-ok
          (ensure (not (has_text state.secret_operations item.logical_name))
            (file_conflict index (lit ".logical_name")))
          _ _ h in
      operate_secret-IsAccepted existing operation (with_operation item.logical_name state) next h1
        accepted

add_file-IsAccepted :
    (index : ℕ) (existing : List (Text × Text)) (item : ManagedFileInput) (state next : FileState)
    → add_file index existing item state ≡ ok next
    → IsAccepted state
    → IsAccepted next
unfolding add_file
add_file-IsAccepted index existing item state next h accepted =
    let (u, checked, h1) = bind-ok (check_file index item) _ _ h in
    add_content-IsAccepted index item checked existing item.sensitive item.content state next h1
      accepted

add_files-IsAccepted :
    (index : ℕ) (existing : List (Text × Text)) (items : List ManagedFileInput)
    (state last : FileState)
    → add_files index existing items state ≡ ok last
    → IsAccepted state
    → IsAccepted last
unfolding add_files
add_files-IsAccepted index existing [] state last h accepted =
    let e : state ≡ last = cc in rw (sym e) accepted
add_files-IsAccepted index existing (item ∷ items) state last h accepted =
    let (next, added, h1) = bind-ok (add_file index existing item state) _ _ h in
    add_files-IsAccepted (suc index) existing items next last h1
      (add_file-IsAccepted index existing item state next added accepted)

-- Files that are accepted are read-only, at safe absolute targets, no two of them have the same name
-- or the same target, and their contents, public and secret, have at most 2097152 bytes in total.
pub normalize_files_sound :
    (input : List ManagedFileInput) (existing : List (Text × Text)) (metadata : List Entry)
    (public_files secret_files : List (Text × Text))
    → normalize_files input existing ≡ ok (metadata, (public_files, secret_files))
    → All IsMountable metadata
      × (Pairwise Differ metadata
          × (content_bytes public_files + content_bytes secret_files ≤ max_file_total_bytes))
unfolding normalize_files
normalize_files_sound input existing metadata public_files secret_files h =
    let quota = at DomainError.config_quota_exceeded (lit "files") "CONFIG_QUOTA_EXCEEDED" in
    let unanswered =
      at DomainError.secret_operation_required (lit "files") "SECRET_OPERATION_REQUIRED" in
    let (u, few, h1) = bind-ok (ensure (leb (length input) max_files) quota) _ _ h in
    let (state, looped, h2) = bind-ok (add_files 0 existing input no_files) _ _ h1 in
    let (v, answers, h3) =
      bind-ok
        (ensure (all (λ (entry : Text × Text). has_text state.secret_operations entry.0) existing)
          unanswered)
        _ _ h2 in
    let (w, small, h4) = bind-ok (ensure (leb state.total max_file_total_bytes) quota) _ _ h3 in
    let ((mountable, (remembered, differ)), counted) =
      add_files-IsAccepted 0 existing input no_files state looped
        ((tt, (tt, tt)), λ le. omega arith) in
    let fits : state.total ≤ max_file_total_bytes =
      (let t = (ensure_iff _ _).0 small in ground arith) in
    let key : Entry → Text = λ entry. entry.0.logical_name in
    let sorted : sort_by_key key state.metadata ≡ metadata = cc in
    let publics : state.public_files ≡ public_files = cc in
    let secrets : state.secret_files ≡ secret_files = cc in
    let bytes = counted fits in
    rw (sym sorted, sym publics, sym secrets)
      (
        sort_by_key-All IsMountable key state.metadata mountable,
        (
          sort_by_key-Pairwise Differ key state.metadata
              (λ y z (name, target). (
                same_sym z.0.logical_name y.0.logical_name ∙ name,
                same_sym z.0.target_path y.0.target_path ∙ target,
              ))
              differ,
          omega arith,
        ),
      )
