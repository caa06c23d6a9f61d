-- ===== src/Publish/Uploads.antt =====
-- What an upload leaves behind, whether it succeeds or fails.
use contents_factory.Common.{
  ℕ, ◌≡◌, ◌≢◌, refl, subst, ◌∙◌, ◌⊎◌, inl, inr, Bool, true, false, some, ◌&&◌, arith, ◌==◌, nat_eq,
  nat_beq_iff, is_some, Option-cases, find,
}
use contents_factory.Enums.{ContentStatus, PublicationStatus, ChannelStatus, Visibility}
use contents_factory.Errors.{Thrown, Result, ok, err}
use contents_factory.ApprovalService.{find_publication, is_posted}
use contents_factory.ChannelHealth.{assert_can_publish, headroom, check_room}
use contents_factory.Store.{
  Content, Channel, Publication, Db, Env, M, ◌>>=◌, ◌>>◌, set_content_status, find_content,
  find_channel, update, replace, find-some, find-concat, find_of_replace, find-update,
}
use contents_factory.Publish.{
  Services, catch_with, lift, save_publication, new_publication, process, upload, try_upload,
  undo_upload, open_publication, uploaded_row, upload_visibility,
}

headroom_frame :
    (env : Env) (day_start channel_id : ℕ) (db : Db) → (headroom env day_start channel_id db).1 ≡ db
unfolding headroom
headroom_frame env day_start channel_id db = ground arith

assert_can_publish_frame :
    (env : Env) (day_start channel_id : ℕ) (db : Db)
    → (assert_can_publish env day_start channel_id db).1 ≡ db
unfolding assert_can_publish check_room
assert_can_publish_frame env day_start channel_id db =
    ground (arith, headroom_frame env day_start channel_id db)

abbrev is_pair : ℕ → ℕ → Publication → Bool
is_pair content_id channel_id p = p.content_id == content_id && p.channel_id == channel_id

-- the row that the run works on is the one that is found under its content and channel
opened :
    (env : Env) (content_id channel_id : ℕ) (db : Db)
    → let r = open_publication env content_id channel_id db in
      (p : Publication) × (r.0 ≡ ok p)
      × (find_publication content_id channel_id r.1 ≡ some p)
      × (is_pair content_id channel_id p ≡ true)
      × (r.1.contents ≡ db.contents)
unfolding open_publication
opened env content_id channel_id db =
    elim (Option-cases (find_publication content_id channel_id db)) [
      | inl new ↦
          let made = new_publication env content_id channel_id db.next_id in
          let own : is_pair content_id channel_id made ≡ true = ground arith in
          rw (new, open_publication)
            (
              made,
              refl,
              find-concat (is_pair content_id channel_id) db.publications made new own,
              own,
              refl,
            )
      | inr (p, found) ↦
          let hit = (find-some (is_pair content_id channel_id) db.publications found).0 in
          let again = record p { status = PublicationStatus.uploading } in
          rw (found, open_publication)
            (
              again,
              refl,
              find_of_replace (λ (q : Publication). q.id) (is_pair content_id channel_id) p again
                  db.publications found refl hit,
              hit,
              refl,
            )
    ]

-- a step that writes nothing either throws, or gives its result to what follows
quiet_bind :
    {A B : Type 0} (m : M A) (f : A → M B) (db : Db)
    → (m db).1 ≡ db
    → ((e : Thrown) × ((m >>= f) db ≡ (err e, db)))
      ⊎ ((a : A) × ((m db).0 ≡ ok a) × ((m >>= f) db ≡ f a db))
quiet_bind m f db quiet = elim (result_cases (m db).0) [
  | inl (e, h) ↦ inl (e, rw (h, quiet))
  | inr (a, h) ↦ inr (a, h, rw (h, quiet))
]
  where
    result_cases :
        {C : Type 0} (r : Result C) → ((e : Thrown) × (r ≡ err e)) ⊎ ((a : C) × (r ≡ ok a))
    result_cases (ok a) = inr (a, refl)
    result_cases (err e) = inl (e, refl)

-- the state after a successful upload
abbrev uploaded_db : Channel → Publication → ℕ → Db → Db
uploaded_db channel row external_id db = record db {
  publications = replace (λ p. p.id) (uploaded_row channel row external_id) db.publications;
  contents =
      update (λ c. c.id == row.content_id) (λ c. record c { status = ContentStatus.published })
        db.contents;
}

module _ (env : Env) (day_start : ℕ) (services : Services) (channel : Channel)
    (row : Publication) where
  abbrev recorded : ℕ → M (Unit {0})
  recorded external_id =
      save_publication (uploaded_row channel row external_id)
      >> set_content_status row.content_id ContentStatus.published

  abbrev sent : M (Unit {0})
  sent = lift services.uploaded >>= recorded

  abbrev marked : M (Unit {0})
  marked = lift services.marks >> sent

  abbrev optimized : M (Unit {0})
  optimized = lift services.optimized >> marked

  abbrev resolved : M (Unit {0})
  resolved = lift services.credentials >> optimized

  tried :
      (db : Db)
      → let r = try_upload env day_start services channel row db in
        ((e : Thrown) × (r ≡ (err e, db)))
        ⊎ ((external_id : ℕ) × (services.uploaded ≡ ok external_id)
            × (r ≡ (ok tt, uploaded_db channel row external_id db)))
  unfolding try_upload
  tried db =
      let room = assert_can_publish_frame env day_start channel.id db in
      elim (quiet_bind (assert_can_publish env day_start channel.id) (λ _. resolved) db room) [
        | inl stopped ↦ inl stopped
        | inr (_, _, h) ↦ elim (quiet_bind (lift services.credentials) (λ _. optimized) db refl) [
          | inl (e, k) ↦ inl (e, h ∙ k)
          | inr (_, _, k) ↦ elim (quiet_bind (lift services.optimized) (λ _. marked) db refl) [
            | inl (e, l) ↦ inl (e, h ∙ k ∙ l)
            | inr (_, _, l) ↦ elim (quiet_bind (lift services.marks) (λ _. sent) db refl) [
              | inl (e, m) ↦ inl (e, h ∙ k ∙ l ∙ m)
              | inr (_, _, m) ↦ elim (quiet_bind (lift services.uploaded) recorded db refl) [
                | inl (e, n) ↦ inl (e, h ∙ k ∙ l ∙ m ∙ n)
                | inr (external_id, up, n) ↦ inr (external_id, up, h ∙ k ∙ l ∙ m ∙ n)
              ]
            ]
          ]
        ]
      ]

-- how a run ends that got as far as the `try` block
abbrev pub Ended : Services → ℕ → ℕ → Content → Result (Unit {0}) × Db → Type 0
Ended services content_id channel_id content r =
    (p : Publication) × (find_publication content_id channel_id r.1 ≡ some p)
    × (((external_id : ℕ) × (r.0 ≡ ok tt)
          × (services.uploaded ≡ ok external_id)
          × (p.external_id ≡ some external_id)
          × (p.status ≡ PublicationStatus.uploaded)
          × (p.visibility ≢ Visibility.public)
          × (find_content content_id r.1
              ≡ some (record content { status = ContentStatus.published })))
        ⊎ ((e : Thrown) × (r.0 ≡ err e)
            × (p.error ≡ some e)
            × (p.status ≡ PublicationStatus.failed)
            × (find_content content_id r.1
                ≡ some (record content { status = ContentStatus.approved }))))

set_status_found :
    (id k : ℕ) (status : ContentStatus) (db : Db) (content : Content)
    → k ≡ id
    → find_content id db ≡ some content
    → find_content id (set_content_status k status db).1 ≡ some (record content { status = status })
set_status_found id k status db content same found =
    let hit = (find-some (λ (c : Content). c.id == id) db.contents found).0 in
    rw same (
      find-update (λ (c : Content). c.id == id) (λ c. record c { status = status }) db.contents
        content found hit)

never_public : (channel : Channel) → upload_visibility channel ≢ Visibility.public
never_public channel = ground arith

module _ (env : Env) (day_start : ℕ) (services : Services) (channel : Channel)
    (content_id : ℕ) where
  tried_ends :
      (row : Publication) (db : Db) (content : Content)
      → find_publication content_id channel.id db ≡ some row
      → is_pair content_id channel.id row ≡ true
      → find_content content_id db ≡ some content
      → let r = try_upload env day_start services channel row db in
        Ended services content_id channel.id content (catch_with (undo_upload row) r.0 r.1)
  unfolding undo_upload
  tried_ends row db content found hit there =
      let same : row.content_id ≡ content_id = ground (arith, hit) in
      let saved : (p : Publication)
          → p.id ≡ row.id
          → is_pair content_id channel.id p ≡ true
          → find (is_pair content_id channel.id) (replace (λ r. r.id) p db.publications) ≡ some p =
        λ p i q.
          find_of_replace (λ (r : Publication). r.id) (is_pair content_id channel.id) row p
            db.publications found i q in
      elim (tried env day_start services channel row db) [
        | inl (e, h) ↦
            let failed = record row { status = PublicationStatus.failed; error = some e } in
            rw h (
              failed,
              saved failed refl hit,
              inr (
                e,
                refl,
                refl,
                refl,
                set_status_found content_id row.content_id ContentStatus.approved db content same
                    there,
              ),
            )
        | inr (external_id, up, h) ↦
            let p = uploaded_row channel row external_id in
            rw h (
              p,
              saved p refl hit,
              inl (
                external_id,
                refl,
                up,
                refl,
                refl,
                never_public channel,
                set_status_found content_id row.content_id ContentStatus.published db content same
                    there,
              ),
            )
      ]

  upload_ends :
      (db : Db) (content : Content)
      → find_content content_id db ≡ some content
      → Ended services content_id channel.id content
          (upload env day_start services channel content_id db)
  unfolding upload
  upload_ends db content there =
      let db1 = (set_content_status content_id ContentStatus.publishing db).1 in
      let (row, made, found, hit, same) = opened env content_id channel.id db1 in
      let publishing = record content { status = ContentStatus.publishing } in
      let there1 =
        set_status_found content_id content_id ContentStatus.publishing db content refl there in
      let there2 : find_content content_id (open_publication env content_id channel.id db1).1
          ≡ some publishing =
        rw same there1 in
      rw made (
        tried_ends row (open_publication env content_id channel.id db1).1 publishing found hit
          there2)

-- An upload to an active channel of a content that has its final file and is not posted there yet
-- leaves one publication row that is found for the pair. Either the run returns, that row is
-- UPLOADED under the id that the platform gave, as private or unlisted but never public, and the
-- content is PUBLISHED; or the run throws, the row is FAILED with that error, and the content is
-- back at APPROVED. The status that the content had plays no part.
pub process_outcome :
    (env : Env) (day_start : ℕ) (services : Services) (content_id channel_id : ℕ) (db : Db)
    (content : Content) (channel : Channel)
    → find_content content_id db ≡ some content
    → is_some content.final_key ≡ true
    → find_channel channel_id db ≡ some channel
    → channel.status ≡ ChannelStatus.active
    → is_posted (find_publication content_id channel_id db) ≡ false
    → Ended services content_id channel_id content
        (process env day_start services content_id channel_id db)
unfolding process
process_outcome env day_start services content_id channel_id db content channel found key there
      active fresh =
    let own : channel.id ≡ channel_id =
      (nat_beq_iff _ _).0 (find-some (λ (c : Channel). c.id == channel_id) db.channels there).0 in
    let through : process env day_start services content_id channel_id db
        ≡ upload env day_start services channel content_id db =
      rw (found, process) (rw (key, there) (rw (active, fresh) refl)) in
    rw through (
      subst
        (λ k.
          Ended services content_id k content (upload env day_start services channel content_id db))
        own (upload_ends env day_start services channel content_id db content found))
