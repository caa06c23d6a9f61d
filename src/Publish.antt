-- ===== src/Publish.antt =====
-- apps/worker/src/processors/publish.processor.ts: the upload of a content to a channel. What the
-- credentials, the optimizer, the provenance service and the platform answer is an input of the run
-- (`Services`); every platform has an adapter.
pub mod Uploads
mod Tests
use contents_factory.Common.{
  ℕ, ◌+◌, Bool, true, false, Option, none, some, List, [], ◌∷◌, ◌++◌, ◌&&◌, ◌==◌, nat_eq, not,
  if◌then◌else◌, is_some,
}
use contents_factory.Enums.{
  ContentStatus, PublicationStatus, ChannelStatus, Visibility, channel_status_eq,
}
use contents_factory.Errors.{ErrorCode, Thrown, Result, ok, err}
use contents_factory.ApprovalService.{find_publication, is_posted}
use contents_factory.ChannelHealth.{assert_can_publish}
use contents_factory.Store.{
  Content, Channel, Publication, Db, Env, M, ◌>>=◌, ◌>>◌, return, throw, fail, get, modify, replace,
  find_content, find_channel, set_content_status,
}

-- the answers of the services in one run; an upload gives the platform's id
pub record Services : Type 0 where
  pub credentials : Result (Unit {0})
  pub optimized : Result (Unit {0})
  pub marks : Result (Unit {0})
  pub uploaded : Result ℕ

abbrev pub lift : {A : Type 0} → Result A → M A
lift r db = (r, db)

abbrev pub save_publication : Publication → M (Unit {0})
save_publication pub_row =
    modify (λ db. record db { publications = replace (λ p. p.id) pub_row db.publications })

abbrev pub new_publication : Env → ℕ → ℕ → ℕ → Publication
new_publication env content_id channel_id id = record {
  id = id;
  content_id = content_id;
  channel_id = channel_id;
  status = PublicationStatus.uploading;
  visibility = Visibility.private;
  external_id = none;
  error = none;
  created_at = env.now;
}

abbrev add_publication : Publication → M (Unit {0})
add_publication made =
    modify
      (λ db. record db { publications = db.publications ++ made ∷ []; next_id = db.next_id + 1 })

-- the row that the run works on: the one that exists, or a new one
unfoldable pub open_publication : Env → ℕ → ℕ → M Publication
open_publication env content_id channel_id db = elim (find_publication content_id channel_id db) [
  | some existing ↦
      (do
        save_publication (record existing { status = PublicationStatus.uploading })
        return (record existing { status = PublicationStatus.uploading }))
        db
  | none ↦
      (do
        add_publication (new_publication env content_id channel_id db.next_id)
        return (new_publication env content_id channel_id db.next_id))
        db
]

abbrev pub upload_visibility : Channel → Visibility
upload_visibility channel =
    if channel.supports_private_upload then Visibility.private else Visibility.unlisted

-- the row after a successful upload
abbrev pub uploaded_row : Channel → Publication → ℕ → Publication
uploaded_row channel row external_id = record row {
  external_id = some external_id;
  visibility = upload_visibility channel;
  status = PublicationStatus.uploaded;
  error = none;
}

-- the `try` block
unfoldable pub try_upload : Env → ℕ → Services → Channel → Publication → M (Unit {0})
try_upload env day_start services channel row = do
  assert_can_publish env day_start channel.id
  lift services.credentials
  lift services.optimized
  lift services.marks
  external_id ← lift services.uploaded
  save_publication (uploaded_row channel row external_id)
  set_content_status row.content_id ContentStatus.published

-- the `catch` block
unfoldable pub undo_upload : Publication → Thrown → M (Unit {0})
undo_upload row e = do
  save_publication (record row { status = PublicationStatus.failed; error = some e })
  set_content_status row.content_id ContentStatus.approved
  throw e

abbrev pub catch_with : (Thrown → M (Unit {0})) → Result (Unit {0}) → M (Unit {0})
catch_with handler (ok a) = return a
catch_with handler (err e) = handler e

unfoldable pub upload : Env → ℕ → Services → Channel → ℕ → M (Unit {0})
unfolding open_publication try_upload undo_upload
upload env day_start services channel content_id = do
  set_content_status content_id ContentStatus.publishing
  row ← open_publication env content_id channel.id
  (λ db.
      let r = try_upload env day_start services channel row db in
      catch_with (undo_upload row) r.0 r.1)

unfoldable pub process : Env → ℕ → Services → ℕ → ℕ → M (Unit {0})
unfolding upload
process env day_start services content_id channel_id db = elim (find_content content_id db) [
  | none ↦ fail ErrorCode.content_not_found db
  | some content ↦
      if not (is_some content.final_key)
      then fail ErrorCode.content_invalid_state db
      else (elim (find_channel channel_id db) [
        | none ↦ fail ErrorCode.not_found db
        | some channel ↦
            if not (channel.status == ChannelStatus.active)
            then fail ErrorCode.channel_inactive db
            else if is_posted (find_publication content_id channel_id db)
            then return tt db
            else upload env day_start services channel content_id db
      ])
]
