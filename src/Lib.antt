-- ===== src/Lib.antt =====
-- The logic of the web frontend of the Touhou Cloud Music database, modelled from its TypeScript.
--
-- The frontend talks to the server through one adapter for replies; on it stand the store of the
-- signed-in user, the forms for signing in, signing up and verifying an address, and the reset of a
-- password. Beside them stand components with logic of their own: the tree of tags, the tags of an
-- entity, the search page, the input of a date, the draft of an image, the image queue, the editing
-- of a profile, of roles and of the tracks of a release, passwords, page numbers, the language, the
-- scrolling of a combobox, and the package of helpers under them. Paths are from the repository's
-- root.
--
--   Api            web/frontend/packages/api/src/shared/index.ts: a reply becomes a value or an
--                  error. Values has JSON values and what a condition and a property access make of
--                  them. `JSON.parse` is an argument.
--   VerifyEmail    web/frontend/src/view/auth/verify_email/session.ts and state.ts: the state
--                  machine of `updateVerifyEmailState`, and the remembered address.
--   AuthForm       web/frontend/src/view/auth/store/index.ts: `useAuthForm`. A handler is its part
--                  before the request and its part after the reply; System runs the parts in every
--                  order. The user store is an interface, `Users`, which
--                  Instance fills with UserStore.
--   UserStore      web/frontend/src/state/user/index.tsx: the class `UserStore`, its socket, its
--                  reconnect timer and the hint in local storage; `ensureCurrentUser`. Events runs
--                  methods, replies and socket events in every order.
--   ResetPassword  web/frontend/src/view/auth/reset_password: Session is session.ts, Response is
--                  response.ts and request.ts, UiStore is store.ts, Page has the views and timers of
--                  index.tsx, Flows its handlers with the three flow files. The decoders of the
--                  effect library, `JSON.stringify` and `Date.parse` are arguments.
--   TagTree        web/frontend/src/view/tag/TagTree.tsx: the expanded and the visible nodes, the
--                  index and the active item, in Keyboard the keys, and in Bubbling the run of a
--                  handler for an item and its ancestors.
--   DatePicker     web/frontend/src/component/form/DateWithPrecision/state.ts, and in Submission and
--                  Display web/frontend/src/domain/shared/date_with_precision.ts; Calendar has the
--                  functions of `Date` that they call, with web/frontend/packages/toolkit/data/date.ts.
--   ImageCrop      web/frontend/src/component/ImageCropDialog: Geometry is cropperGeometry.ts,
--                  Selection is cropperSelectionPatch.ts, Dialog and Saving are index.tsx with
--                  utils.ts, and OutputSize the size of the output, with cropperImageUtils.ts and
--                  web/frontend/src/view/image_upload/outputSize.ts. Numbers has what they do with
--                  numbers, rounding included.
--   ImageUpload    web/frontend/src/view/image_upload/store.ts, with the browser's object URLs.
--   EditProfile    web/frontend/src/view/user/edit_profile/store.ts: the biography and the images.
--   EntityTags     web/frontend/src/view/entity_tags: model.ts, and in Voting the votes and the rows
--                  of EntityTagsSection.tsx.
--   Search         web/frontend/src/view/search/index.tsx: tabs, results and what is shown instead.
--   ImageQueue     web/frontend/src/view/image_queue/detail.tsx: an entry and its neighbors.
--   AdminUsers     web/frontend/src/view/admin/users.tsx: the editor of roles, and the search.
--   ReleaseTracks  web/frontend/src/view/release/edit/comp/ReleaseTracksField.tsx: discs and tracks,
--                  and in Items the song and the artists of TrackFieldItem.tsx beside it. The
--                  arrays of the forms library are an interface with laws, `FormLaws`.
--   EntityForms    The lists of web/frontend/src/view/tag/edit/comp/TagRelationsField.tsx, of
--                  SongRelationsField.tsx and SongLanguagesField.tsx in view/song/edit/comp, and of
--                  ReleaseArtistsField.tsx, ReleaseEventsField.tsx and ReleaseCreditsField.tsx in
--                  view/release/edit/comp, over the same interface. CreditTracks and CreditBoxes
--                  have the tracks that a credit names; web/frontend/src/domain/release/schema.ts. Titles
--                  has the lists of titles, names, catalog numbers, founders and of a song's credits;
--                  the objects that a store merges are numbered there.
--   ArtistForm     web/frontend/src/view/artist/edit/comp: the memberships with their roles and
--                  tenures in the folder Membership, and Aliases.tsx.
--   Explore        web/frontend/src/route/*/explore.tsx: the addresses of events, songs, artists,
--                  labels and releases; Pages has their pages, web/frontend/src/view/*/explore.tsx.
--   Widgets        web/frontend/src/component/image/__internal.tsx, and of the folder
--                  web/frontend/src/utils/solid the files useIntersectionSentinel.ts,
--                  useScrollDirection.ts and createClickOutside.ts.
--   Password       web/frontend/src/domain/auth/schema.ts and
--                  web/frontend/src/view/auth/component/PasswordField.tsx.
--   Ports          web/frontend/packages/api/src/port/notification/index.ts and
--                  port/image-queue/index.ts: clients beside that of Api; Agreement compares them.
--   Toolkit        web/frontend/packages/toolkit: helpers on truth values, functions, arrays and
--                  maps, and in Timer debounced functions with the browser's timers.
--   Combobox       web/frontend/src/component/atomic/Combobox/__internal/scroll.ts.
--   Locale         web/frontend/src/state/i18n/init.ts.
--   Pagination     `buildNearbyPages` of web/frontend/src/component/Pagination.tsx.
--
-- AuthForm uses VerifyEmail; AuthForm and UserStore read replies as Api leaves them. Combobox runs two
-- debounced functions of Toolkit, and ImageQueue drops repeated ids with what Toolkit has for it.
--
-- Conventions. Text is a list of UTF-16 code units. Counts, ids and seconds that the source has as
-- numbers are natural numbers, as the server sends them; instants are integers. A store of signals is
-- a record, a callback an operation on it, and the effects that the framework runs after a write are
-- part of the operation that writes. Storage that throws on every access is a value of its own.
--
-- `clampRectToBounds` calls itself at most once where the numbers are exact, so its fuel is two. The
-- other fuel is that of the loop of `resolveActiveTreeId`, which climbs from parent to parent: one
-- more than the depth of the item is enough in a tree without two nodes of one id.
--
-- Not modelled: the rendering and the styles, the routes, the forms library, the generated clients,
-- the queries and mutations around them, the pages of the entities but for the lists of their forms
-- named above, the elements of the cropper, daylight saving time, and the server itself.
pub mod AdminUsers
pub mod Api
pub mod ArtistForm
pub mod AuthForm
pub mod Combobox
pub mod Common
pub mod DatePicker
pub mod EditProfile
pub mod EntityForms
pub mod EntityTags
pub mod Explore
pub mod ImageCrop
pub mod ImageQueue
pub mod ImageUpload
pub mod Locale
pub mod Pagination
pub mod Password
pub mod Ports
pub mod ReleaseTracks
pub mod ResetPassword
pub mod Search
pub mod TagTree
pub mod Toolkit
pub mod UserStore
pub mod VerifyEmail
pub mod Widgets
