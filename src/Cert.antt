-- ===== src/Cert.antt =====
-- matter/src/cert: the ASN.1 form of certificates.
pub mod Asn1Writer
mod Tests
