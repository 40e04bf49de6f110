-- ===== src/Events/Credential/Written.antt =====
-- Reading back the credential change events that are written.
use caep_dev.Base.{◌≡◌, refl, contains, Option, none, ok, and_then, sym}
use caep_dev.Base.Text.{same_fold, fold_rune}
use caep_dev.Json.Decode.{field, read_text, read_pointer, addresses, struct_members, write_fields}
use caep_dev.Json.Laws.{field-optional}
use caep_dev.Events.Defs.{credential_change}
use caep_dev.Events.Metadata.{EventMetadata, optional_members}
use caep_dev.Events.Written.{
  IsWritableOption, TellsApart, Avoids, decode_metadata-written, other_field, pointer_read,
}
use caep_dev.Events.Credential.{
  CredentialChangePayload, CredentialChangeEvent, validate, payload, marshal, unmarshal, parse,
  fields_of, names, read_payload,
}

read_payload-written :
    (p : CredentialChangePayload) (o : Option EventMetadata)
    → read_payload (write_fields (fields_of p) (optional_members o)) ≡ ok p
unfolding write_fields and_then field addresses contains same_fold fold_rune
read_payload-written p o =
    simp
      (
        field-optional,
        other_field read_text (addresses names "credential_type") p.credential_type o
            (refl, refl, refl, refl),
        other_field read_text (addresses names "change_type") p.change_type o
            (refl, refl, refl, refl),
        other_field read_pointer (addresses names "friendly_name") p.friendly_name o
            (refl, refl, refl, refl),
        pointer_read (addresses names "friendly_name") p.friendly_name,
        other_field read_pointer (addresses names "x509_issuer") p.x509_issuer o
            (refl, refl, refl, refl),
        pointer_read (addresses names "x509_issuer") p.x509_issuer,
        other_field read_pointer (addresses names "x509_serial") p.x509_serial o
            (refl, refl, refl, refl),
        pointer_read (addresses names "x509_serial") p.x509_serial,
        other_field read_pointer (addresses names "fido2_aaguid") p.fido2_aaguid o
            (refl, refl, refl, refl),
        pointer_read (addresses names "fido2_aaguid") p.fido2_aaguid,
      )
      refl

apart : TellsApart names
unfolding addresses contains same_fold fold_rune
apart = (
  (refl, refl, refl, refl),
  (refl, refl, refl, refl),
  (refl, refl, refl, refl),
  (refl, refl, refl, refl),
  (refl, refl, refl, refl),
)

avoided : (p : CredentialChangePayload) → Avoids names (fields_of p)
unfolding addresses contains same_fold fold_rune
avoided p = (
  (refl, (refl, (refl, (refl, (refl, (refl, tt)))))),
  (refl, (refl, (refl, (refl, (refl, (refl, tt)))))),
  (refl, (refl, (refl, (refl, (refl, (refl, tt)))))),
  (refl, (refl, (refl, (refl, (refl, (refl, tt)))))),
  (refl, (refl, (refl, (refl, (refl, (refl, tt)))))),
)

-- A valid event, with metadata that are written whole, is read back as it was.
pub parse-marshal :
    (e : CredentialChangeEvent)
    → e.base.type ≡ credential_change
    → IsWritableOption e.base.metadata
    → validate e ≡ none
    → parse (marshal e) ≡ ok e
unfolding parse unmarshal marshal payload struct_members and_then addresses contains same_fold
    fold_rune
parse-marshal e t w v =
    rw
      (
        decode_metadata-written names read_payload e.payload (fields_of e.payload) e.base.metadata
            apart (avoided e.payload) w (read_payload-written e.payload e.base.metadata),
        sym t,
        v,
      )
      refl
