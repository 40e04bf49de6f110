-- ===== src/Subjects.antt =====
-- secevent/pkg/subject: the subjects of security event tokens.
pub mod Defs
pub mod Email
pub mod Phone
pub mod IssuerSub
pub mod Uri
pub mod Opaque
pub mod Account
pub mod Did
pub mod JwtId
pub mod SamlId
pub mod Simple
pub mod Complex
pub mod Parse
pub mod Members
pub mod RoundTrip
pub mod Validity
pub mod Payloads
