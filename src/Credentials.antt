-- ===== src/Credentials.antt =====
-- The block of the cluster form for the credentials of servers of one's own:
-- console/ui/src/entities/authentification-method-form-block/ui/index.tsx, with the parts that it
-- shows, AuthenticationFormPart.tsx, SshMethodFormPart.tsx and PasswordMethodFormPart.tsx.
mod Fields
mod Steps
mod Laws
mod ShownLaws
mod Tests
unfoldable pub use Fields.*
unfoldable pub use Steps.*
