-- ===== src/Lib.antt =====
-- Minister is an identity layer: a user proves facts once, keeps them as badges, and signs in to
-- other apps by OpenID Connect with a chosen set of badges. The program is a Next.js app
-- (apps/minister) over a Postgres database, with shared packages and some services. This
-- development models parts of the app whose decisions are security-critical, from the TypeScript
-- code, and proves what they guarantee.
--
-- The parts, and the files that model them:
--
-- - Policy (apps/minister/src/lib/oidc-policy.ts): the policy that an app states about a user's
--   badges. PolicyNode is the tree, Bounds its limits, Types the badge types that it names, Match
--   the assignment of distinct badges to the children of an at-least node, Evaluate the test
--   evaluatePolicy, Select the badges that a consent discloses (selectForDisclosure).
-- - Oidc: the OpenID Connect provider. Oidc.Authorize (apps/minister/src/lib/oidc-authorize.ts)
--   checks an authorization request, with the policy limits of Policy; Oidc.Consent
--   (apps/minister/src/server/oidc-actions.ts) is the answer of the user, which writes the code,
--   the grant (Oidc.Grants, apps/minister/src/lib/oidc-grants.ts) and the persona (Oidc.Profile,
--   apps/minister/src/server/profile-validation.ts); Oidc.Token
--   (apps/minister/src/app/oidc/token/route.ts) redeems the code; Oidc.Claims
--   (apps/minister/src/lib/oidc-claims.ts) and Oidc.Userinfo
--   (apps/minister/src/app/oidc/userinfo/route.ts) tell the app what was granted; Oidc.ReMint
--   (packages/vc/src/issue.ts, apps/minister/src/lib/disclosure-claims.ts) is the credential that
--   is signed anew at each disclosure, at its time. Oidc.Store has the tables that they share.
--   Oidc.Flow composes them: what a consent leads to at the token endpoint.
-- - Recovery.Config (apps/minister/src/lib/recovery-config-guardrails.ts,
--   apps/minister/src/server/recovery-config-actions.ts): the editor of the recovery weights and
--   the recovery threshold. Store holds the tables and the gate, Actions the three actions, each
--   a function from the store to a result and a store; Rules has a rule for each action, by which
--   the properties of the store in Guarded, Valid, Delay and Audit are proved.
-- - Recovery.Attempt (apps/minister/src/lib/recovery-threshold.ts, with the live reads of
--   apps/minister/src/lib/sybil-config.ts): the engine that adds up live re-proofs of badges and
--   grants a recovery ticket. It reads what Recovery.Config writes; Solo relates the two.
--   Accounts and Once are about every interleaving, Reached about one attempt from its start to
--   its ticket.
-- - Recovery.Assurance (apps/minister/src/lib/assurance.ts): the fixed weights that the rows of
--   Recovery.Config replaced.
-- - Recovery.Codes (apps/minister/src/lib/recovery-codes.ts): the single-use recovery codes.
-- - Pair (apps/minister/src/server/anon-pair.ts): the relay that hands a sealed payload from one
--   device of an account to another. Access is about one claim, Handover about any run of the
--   operations, over the results of its calls (Results).
-- - Group (apps/minister/src/server/group-actions.ts): the groups of users. Operations has the
--   actions. Owners and Actions have the owner that every group keeps, Coup who may change its
--   admins.
-- - Merge (apps/minister/src/lib/merge.ts): the merge of two accounts and its reversal. Donor has
--   what becomes of the rows of the donor, Forward the transaction of the merge, Reverse that of
--   the reversal, Moves what happens to a table, RoundTrip what comes back, Chain a second merge
--   of a survivor.
-- - Credential (apps/minister/src/server/credential-actions.ts,
--   apps/minister/src/lib/credential-lifecycle.ts, apps/minister/src/lib/credential-gate.ts,
--   apps/minister/src/lib/passkey-enroll.ts): the emails and the passkeys of an account. Store
--   has the tables and the refusals, Actions the actions, Gate the hold on a new passkey, Kept
--   and Passkeys what a removal leaves, Steps any sequence of actions, Primary the primary email.
-- - Sybil (apps/minister/src/lib/sybil-score.ts): the sybil score of the badges of a user, and
--   Monotone what a further badge does to it.
-- - SybilConfig (apps/minister/src/lib/sybil-config.ts): the cached config of the scorer, and the
--   check at boot. Found has what its loops find, Complete what a clean check promises to Sybil
--   and to Recovery.Attempt; Seed the rows of a new database, Parity their weights against
--   Recovery.Assurance.
-- - Invite (apps/minister/src/lib/invite-codes.ts): the redemption of invite codes.
-- - SignIn (apps/minister/src/lib/signin-otp.ts): the sign-in code of an email, its lockout and
--   its single use.
-- - StatusList (apps/minister/src/lib/status-list/bitstring.ts): the bits that say which badges
--   are revoked. Bits has the arithmetic of a byte, Publish the bits that a publication sets.
--   StatusList.Publisher and StatusList.Sweep (apps/minister/src/lib/status-list/publish.ts)
--   publish the lists: Published is about one list, with other writers in between, Delivered
--   about one without, Sweep about a pass over all. StatusList.Registry
--   (apps/minister/src/lib/status-list/allocate.ts, apps/minister/src/lib/status-list/revoke.ts)
--   has the entries of the lists: Revoked, Tombstones and Steps what holds of them.
-- - RateLimit (apps/minister/src/lib/rate-limit.ts): the sliding-window limiter, and the client
--   address that it counts by.
-- - Common: tests on numbers and strings, lists, maps as lists of entries, and the operations on
--   strings that the program uses.
--
-- State is passed explicitly. A database table is a list of rows or of entries under a key that
-- the schema makes unique. A function that reads first and updates later, outside one
-- transaction, takes two states: the one that its read saw and the one that its update meets. Its
-- theorems hold for every pair, or for a stated relation between the two, so that they cover the
-- interleavings of concurrent requests. The actions of the recovery config hold one lock, so they
-- are single steps. So that their sequences can be followed, Credential.Steps and
-- StatusList.Steps take each action as a single step too, which the code does not enforce for all
-- of them; the addition and the verification of an email, the allocation and the revocation in a
-- status list are modelled so throughout. Steps of Recovery.Attempt, Pair and Oidc.Token.Once are
-- the runs of their operations.
--
-- Times and scores are natural numbers, in the units of the code; tests such as `t > now - w` are
-- written `now < t + w`. Errors are constructors of a result type in place of their messages.
-- Random ids, nonces and tickets are arguments. The version of a status list is a column of four
-- bytes: an update beyond 2,147,483,647 throws, as the database does; other numbers are not
-- bounded. Keyed and unkeyed digests of secrets and `toUpperCase` are parameters. A write to a
-- row by its unique key changes the first row with that key.
--
-- Recursion is structural, but for the augmenting search of Policy.Match, which runs on fuel: the
-- number of badges plus one is given and shown to be enough. A publication of a status list tries
-- four times, as the code does.
--
-- Not modelled: the database and its transactions, Next.js, the React components and pages, mail,
-- the cryptography of credentials and of the pairing payload, and external services. Of the app's
-- own code, share links, cohorts and anonymity sets, the wizard and its plugins, the anonymous
-- seed, statistics, the proofs before a merge, and the handling of sessions are not modelled.
pub mod Common
pub mod Policy
pub mod Oidc
pub mod Merge
pub mod Credential
pub mod Sybil
pub mod SybilConfig
pub mod RateLimit
pub mod Recovery
pub mod Group
pub mod Pair
pub mod Invite
pub mod SignIn
pub mod StatusList
